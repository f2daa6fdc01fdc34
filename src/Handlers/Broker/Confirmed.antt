-- ===== src/Handlers/Broker/Confirmed.antt =====
-- The activations of credentials by the handlers of broker_handler.go.
use service_broker_proxy.Prelude.{String, Option, none, some, arith, ◌==◌, Bool-cases, inl, inr}
use service_broker_proxy.Types.{
  Error, url_conflict, takeover_disabled, no_catalog_fetcher, not_taken_over, ServiceBroker,
  SmBroker, Notification,
}
use service_broker_proxy.Exec.{Result, raise, ◌>>=◌}
use service_broker_proxy.Exec.Keeps.{Keeps, Keeps-if, Keeps-bind-if, keeps_rules}
use service_broker_proxy.Clients.{Env}
use service_broker_proxy.Clients.Confirmed.{IsConfirmed, plain-IsConfirmed}
use service_broker_proxy.Clients.Plain.{plain_calls}
use service_broker_proxy.Handlers.Payload.{BrokerPayload}
use service_broker_proxy.Handlers.Broker.{
  BrokerHandler, login, should_be_taken_over, proxy_name, broker_proxy_path,
}
use service_broker_proxy.Handlers.Broker.Create.{
  create_proxy, update_taken_over, take_over, create_or_take_over, create_for, on_create,
}
use service_broker_proxy.Handlers.Broker.Update.{
  found_broker, rename, refetch, update_existing, update_for, on_update,
}
use service_broker_proxy.Handlers.Broker.Delete.{delete_existing, delete_for, on_delete}

ruleset rules = (keeps_rules, plain_calls, plain-IsConfirmed)

module _ (env : Env) (h : BrokerHandler) where
  login-IsConfirmed :
      (broker_id notification_id : String)
      → Keeps (IsConfirmed env) (login env h broker_id notification_id)
  unfolding login ◌>>=◌
  login-IsConfirmed broker_id notification_id = record { at = λ s p. ground arith }

  create_proxy-IsConfirmed :
      (n : Notification) (b : SmBroker)
      → Keeps (IsConfirmed env) (login env h b.id n.id >>= λ l. create_proxy env h b l)
  unfolding login create_proxy ◌>>=◌
  create_proxy-IsConfirmed n b = record { at = λ s p. ground arith }

  update_taken_over-IsConfirmed :
      (n : Notification) (b : SmBroker) (x : ServiceBroker)
      → Keeps (IsConfirmed env) (login env h b.id n.id >>= λ l. update_taken_over env h b l x)
  unfolding login update_taken_over ◌>>=◌
  update_taken_over-IsConfirmed n b x = record { at = λ s p. ground arith }

  take_over-IsConfirmed :
      (n : Notification) (b : SmBroker) (x : ServiceBroker)
      → Keeps (IsConfirmed env) (login env h b.id n.id >>= λ l. take_over env h b l x)
  unfolding take_over
  take_over-IsConfirmed n b x =
      Keeps-bind-if _ (should_be_taken_over x b) _ (λ l. raise url_conflict)
        (Keeps-bind-if _ h.takeover_enabled _ (λ l. raise takeover_disabled)
          (update_taken_over-IsConfirmed n b x) (search (rules, login-IsConfirmed)))
        (search (rules, login-IsConfirmed))

  create_or_take_over-IsConfirmed :
      (n : Notification) (b : SmBroker) (o : Option ServiceBroker)
      → Keeps (IsConfirmed env) (login env h b.id n.id >>= λ l. create_or_take_over env h b l o)
  unfolding create_or_take_over
  create_or_take_over-IsConfirmed n b none = create_proxy-IsConfirmed n b
  create_or_take_over-IsConfirmed n b (some x) = take_over-IsConfirmed n b x

  create_for-IsConfirmed :
      (n : Notification) (b : SmBroker) → Keeps (IsConfirmed env) (create_for env h n b)
  unfolding create_for
  create_for-IsConfirmed n b = search (rules, create_or_take_over-IsConfirmed)

  -- OnCreate, for any notification and any answers.
  pub on_create-IsConfirmed :
      (unmarshal : String → Result BrokerPayload) (n : Notification)
      → Keeps (IsConfirmed env) (on_create env h unmarshal n)
  unfolding on_create
  on_create-IsConfirmed unmarshal n = search (rules, create_for-IsConfirmed)

  rename-IsConfirmed :
      (n : Notification) (b : SmBroker) (x : ServiceBroker)
      → Keeps (IsConfirmed env) (login env h b.id n.id >>= λ l. rename env h b l x)
  unfolding login rename ◌>>=◌
  rename-IsConfirmed n b x = record { at = λ s p. ground arith }

  refetch-IsConfirmed :
      (n : Notification) (b : SmBroker) (x : ServiceBroker)
      → Keeps (IsConfirmed env) (login env h b.id n.id >>= λ l. refetch env h b l x)
  unfolding login refetch ◌>>=◌
  refetch-IsConfirmed n b x = record {
    at = λ s p. elim (Bool-cases h.broker_credentials_enabled) [
      | inl e ↦ rw e (ground arith)
      | inr e ↦ rw e (ground arith)
    ];
  }

  found_broker-IsConfirmed :
      (answer : Option ServiceBroker × Option Error) → Keeps (IsConfirmed env) (found_broker answer)
  unfolding found_broker
  found_broker-IsConfirmed (b, some e) = search rules
  found_broker-IsConfirmed (none, none) = search rules
  found_broker-IsConfirmed (some b, none) = search rules

  update_existing-IsConfirmed :
      (n : Notification) (before after : SmBroker) (x : ServiceBroker)
      → Keeps (IsConfirmed env) (update_existing env h n before after x)
  unfolding update_existing
  update_existing-IsConfirmed n before after x =
      Keeps-if (x.broker_url == broker_proxy_path h after) _ (raise not_taken_over)
        (Keeps-bind-if _ (proxy_name h before == proxy_name h after) _ _
          (Keeps-bind-if _ h.has_catalog_fetcher _ (λ l. raise no_catalog_fetcher)
            (refetch-IsConfirmed n after x) (search (rules, login-IsConfirmed)))
          (rename-IsConfirmed n after x))
        (search rules)

  update_for-IsConfirmed :
      (n : Notification) (before after : SmBroker)
      → Keeps (IsConfirmed env) (update_for env h n before after)
  unfolding update_for
  update_for-IsConfirmed n before after =
      search (rules, found_broker-IsConfirmed, update_existing-IsConfirmed)

  -- OnUpdate, for any notification and any answers.
  pub on_update-IsConfirmed :
      (unmarshal : String → Result BrokerPayload) (n : Notification)
      → Keeps (IsConfirmed env) (on_update env h unmarshal n)
  unfolding on_update
  on_update-IsConfirmed unmarshal n = search (rules, update_for-IsConfirmed)

  delete_existing-IsConfirmed :
      (b : SmBroker) (x : ServiceBroker) → Keeps (IsConfirmed env) (delete_existing env h b x)
  unfolding delete_existing ◌>>=◌
  delete_existing-IsConfirmed b x = record { at = λ s p. ground arith }

  delete_for-IsConfirmed : (b : SmBroker) → Keeps (IsConfirmed env) (delete_for env h b)
  unfolding delete_for
  delete_for-IsConfirmed b = search (rules, found_broker-IsConfirmed, delete_existing-IsConfirmed)

  -- OnDelete, for any notification and any answers.
  pub on_delete-IsConfirmed :
      (unmarshal : String → Result BrokerPayload) (n : Notification)
      → Keeps (IsConfirmed env) (on_delete env h unmarshal n)
  unfolding on_delete
  on_delete-IsConfirmed unmarshal n = search (rules, delete_for-IsConfirmed)
