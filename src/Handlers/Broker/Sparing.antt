-- ===== src/Handlers/Broker/Sparing.antt =====
-- The brokers of the platform that the handlers of broker_handler.go change.
pub mod Create
use service_broker_proxy.Prelude.{
  String, ◌≡◌, refl, Bool, true, false, Option, none, some, [], ◌∷◌, arith, ◌==◌, eq_iff,
  Bool-cases, inl, inr, if◌then◌else◌,
}
use service_broker_proxy.Types.{
  Error, Credential, takeover_disabled, url_conflict, not_taken_over, ServiceBroker, SmBroker,
  Notification,
}
use service_broker_proxy.Exec.{Log, Result, raise, ◌>>=◌}
use service_broker_proxy.Exec.Calls.{Call, get_broker_by_name}
use service_broker_proxy.Exec.Keeps.{Keeps, Keeps-perform, Keeps-raise, Keeps-bind, keeps_rules}
use service_broker_proxy.Clients
use service_broker_proxy.Clients.{Env}
use service_broker_proxy.Clients.Sparing.{Reported, IsSparing}
use service_broker_proxy.Handlers.Payload.{BrokerPayload}
use service_broker_proxy.Handlers.Broker.{
  BrokerHandler, Login, login, register, activate, reset_broker_cache, broker_proxy_path,
  should_be_taken_over,
}
use service_broker_proxy.Handlers.Broker.Create.{
  create_proxy, update_taken_over, take_over, create_or_take_over, create_for, on_create,
}
use service_broker_proxy.Handlers.Broker.Update.{
  found_broker, update_request, rename, refetch, update_existing, update_for, on_update,
}
use service_broker_proxy.Handlers.Broker.Delete.{delete_existing, delete_for, on_delete}

module _ (env : Env) (h : BrokerHandler) (IsProxy MayUpdate : ServiceBroker → Type 0)
    (own : (b : SmBroker) (x : ServiceBroker) → x.broker_url ≡ broker_proxy_path h b → IsProxy x)
    (may : (x : ServiceBroker) → IsProxy x → MayUpdate x) where
  abbrev Inv : Log → Type 0
  Inv = IsSparing env IsProxy MayUpdate

  -- A broker was reported that may be updated, and perhaps deleted too.
  abbrev Updatable : ServiceBroker → Log → Type 0
  Updatable x s = Reported env MayUpdate x.guid s × Inv s

  abbrev Own : ServiceBroker → Log → Type 0
  Own x s = Reported env IsProxy x.guid s × Updatable x s

  is_proxy :
      (b : SmBroker) (x : ServiceBroker) → x.broker_url == broker_proxy_path h b ≡ true → IsProxy x
  is_proxy b x e = own b x ((eq_iff x.broker_url (broker_proxy_path h b)).0 e)

  found :
      (b : SmBroker) (x : ServiceBroker) (name : String) (s : Log)
      → env.get_broker_by_name s name ≡ (some x, none)
      → x.broker_url == broker_proxy_path h b ≡ true
      → Inv s
      → Own x (get_broker_by_name name ∷ s)
  found b x name s i e p =
      let q = is_proxy b x e in (inl (rw i (refl, q)), (inl (rw i (refl, may x q)), (tt, p)))

  delete_own : (b : SmBroker) (x : ServiceBroker) → Keeps (Own x) (delete_existing env h b x)
  unfolding delete_existing ◌>>=◌
  delete_own b x = record { at = λ s p. ground arith }

  delete_existing-Inv :
      (b : SmBroker) (x : ServiceBroker) (s : Log)
      → (x.broker_url == broker_proxy_path h b ≡ true → Own x s)
      → Inv s
      → Inv (delete_existing env h b x s).1
  unfolding delete_existing ◌>>=◌
  delete_existing-Inv b x s f p = elim (Bool-cases (x.broker_url == broker_proxy_path h b)) [
    | inl e ↦ ((delete_own b x).at s (f e)).1.1
    | inr e ↦ rw e p
  ]

  delete_found :
      (b : SmBroker) (name : String) (answer : Option ServiceBroker × Option Error) (s : Log)
      → env.get_broker_by_name s name ≡ answer
      → Inv s
      → Inv ((found_broker answer >>= delete_existing env h b) (get_broker_by_name name ∷ s)).1
  unfolding found_broker ◌>>=◌
  delete_found b name (x, some e) s i p = (tt, p)
  delete_found b name (none, none) s i p = (tt, p)
  delete_found b name (some x, none) s i p =
      delete_existing-Inv b x _ (λ e. found b x name s i e p) (tt, p)

  look_up_delete :
      (b : SmBroker) (name : String)
      → Keeps Inv (
          Clients.get_broker_by_name env name >>= λ answer.
          found_broker answer >>= λ existing. delete_existing env h b existing)
  unfolding Clients.get_broker_by_name ◌>>=◌
  look_up_delete b name = record { at = λ s p. delete_found b name _ s refl p }

  delete_for-Inv : (b : SmBroker) → Keeps Inv (delete_for env h b)
  unfolding delete_for
  delete_for-Inv b = search (keeps_rules, look_up_delete)

  pub on_delete-IsSparing :
      (unmarshal : String → Result BrokerPayload) (n : Notification)
      → Keeps (IsSparing env IsProxy MayUpdate) (on_delete env h unmarshal n)
  unfolding on_delete
  on_delete-IsSparing unmarshal n = search (keeps_rules, delete_for-Inv)

  login-Own :
      (x : ServiceBroker) (broker_id notification_id : String)
      → Keeps (Own x) (login env h broker_id notification_id)
  unfolding login ◌>>=◌
  login-Own x broker_id notification_id = record { at = λ s p. ground arith }

  register-Own :
      (x : ServiceBroker) (c : Option Credential) (force : Bool)
      → Keeps (Own x) (register env h c force)
  unfolding register ◌>>=◌
  register-Own x c force = record { at = λ s p. ground arith }

  fetch-Own :
      (b : SmBroker) (x : ServiceBroker) (l : Login)
      → Keeps (Own x) (Clients.fetch env (update_request h b l x))
  unfolding Clients.fetch
  fetch-Own b x l = Keeps-perform _ _ (λ s p. ground arith)

  reset-Own :
      (x : ServiceBroker) (old new : Option ServiceBroker)
      → Keeps (Own x) (reset_broker_cache env h old new)
  unfolding reset_broker_cache ◌>>=◌
  reset-Own x old new = record { at = λ s p. ground arith }

  activate-Own : (x : ServiceBroker) (c : Option Credential) → Keeps (Own x) (activate env h c)
  unfolding activate ◌>>=◌
  activate-Own x c = record { at = λ s p. ground arith }

  refetch-Own : (b : SmBroker) (x : ServiceBroker) (l : Login) → Keeps (Own x) (refetch env h b l x)
  unfolding refetch
  refetch-Own b x l = search (keeps_rules, register-Own, fetch-Own, reset-Own, activate-Own)

  rename-Own : (b : SmBroker) (x : ServiceBroker) (l : Login) → Keeps (Own x) (rename env h b l x)
  unfolding rename ◌>>=◌
  rename-Own b x l = record { at = λ s p. ground arith }

  update_own :
      (n : Notification) (before after : SmBroker) (x : ServiceBroker)
      → Keeps (Own x) (update_existing env h n before after x)
  unfolding update_existing
  update_own n before after x = search (keeps_rules, login-Own, refetch-Own, rename-Own)

  update_existing-Inv :
      (n : Notification) (before after : SmBroker) (x : ServiceBroker) (s : Log)
      → (x.broker_url == broker_proxy_path h after ≡ true → Own x s)
      → Inv s
      → Inv (update_existing env h n before after x s).1
  unfolding update_existing
  update_existing-Inv n before after x s f p =
      elim (Bool-cases (x.broker_url == broker_proxy_path h after)) [
        | inl e ↦ ((update_own n before after x).at s (f e)).1.1
        | inr e ↦ rw e ((Keeps-raise {P = Inv} not_taken_over).at s p)
      ]

  update_found :
      (n : Notification) (before after : SmBroker) (name : String)
      (answer : Option ServiceBroker × Option Error) (s : Log)
      → env.get_broker_by_name s name ≡ answer
      → Inv s
      → Inv
          ((found_broker answer >>= update_existing env h n before after)
            (get_broker_by_name name ∷ s)).1
  unfolding found_broker ◌>>=◌
  update_found n before after name (x, some e) s i p = (tt, p)
  update_found n before after name (none, none) s i p = (tt, p)
  update_found n before after name (some x, none) s i p =
      update_existing-Inv n before after x _ (λ e. found after x name s i e p) (tt, p)

  look_up_update :
      (n : Notification) (before after : SmBroker) (name : String)
      → Keeps Inv (
          Clients.get_broker_by_name env name >>= λ answer.
          found_broker answer >>= λ existing. update_existing env h n before after existing)
  unfolding Clients.get_broker_by_name ◌>>=◌
  look_up_update n before after name = record {
    at = λ s p. update_found n before after name _ s refl p;
  }

  update_for-Inv :
      (n : Notification) (before after : SmBroker) → Keeps Inv (update_for env h n before after)
  unfolding update_for
  update_for-Inv n before after = search (keeps_rules, look_up_update)

  pub on_update-IsSparing :
      (unmarshal : String → Result BrokerPayload) (n : Notification)
      → Keeps (IsSparing env IsProxy MayUpdate) (on_update env h unmarshal n)
  unfolding on_update
  on_update-IsSparing unmarshal n = search (keeps_rules, update_for-Inv)
