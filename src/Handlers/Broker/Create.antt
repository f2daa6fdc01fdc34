-- ===== src/Handlers/Broker/Create.antt =====
-- OnCreate of BrokerResourceNotificationsHandler.
use service_broker_proxy.Prelude.{String, true, Option, none, some, if◌then◌else◌}
use service_broker_proxy.Types.{
  blacklisted, takeover_disabled, url_conflict, ServiceBroker, SmBroker, Notification, created,
}
use service_broker_proxy.Exec.{Result, Exec, raise, lift, deref, ◌>>=◌, ◌>>◌}
use service_broker_proxy.Clients.{Env, get_broker_by_name, create_broker, update_broker}
use service_broker_proxy.Handlers.Payload.{BrokerPayload, unmarshal_payload}
use service_broker_proxy.Handlers.Broker.{
  BrokerHandler, broker_proxy_path, proxy_name, should_be_taken_over, Login, login, register,
  activate, reset_broker_cache,
}

module _ (env : Env) (h : BrokerHandler) where
  -- OnCreate, no broker of the name
  unfoldable pub create_proxy : SmBroker → Login → Exec (Unit {0})
  unfolding create_broker register activate reset_broker_cache
  create_proxy b l = do
    response ← register env h l.credentials true
    created_broker ← create_broker env (record {
      id = b.id;
      name = proxy_name h b;
      broker_url = broker_proxy_path h b;
      username = l.username;
      password = l.password;
    })
    reset_broker_cache env h none (some created_broker)
    activate env h response

  unfoldable pub update_taken_over : SmBroker → Login → ServiceBroker → Exec (Unit {0})
  unfolding update_broker register activate reset_broker_cache
  update_taken_over b l existing = do
    response ← register env h l.credentials true
    new_broker ← update_broker env (record {
      id = b.id;
      guid = existing.guid;
      name = proxy_name h b;
      broker_url = broker_proxy_path h b;
      username = l.username;
      password = l.password;
    })
    reset_broker_cache env h (some existing) (some new_broker)
    activate env h response

  -- OnCreate, a broker of the name
  unfoldable pub take_over : SmBroker → Login → ServiceBroker → Exec (Unit {0})
  take_over b l existing =
      if should_be_taken_over existing b
      then (if h.takeover_enabled then update_taken_over b l existing else raise takeover_disabled)
      else raise url_conflict

  unfoldable pub create_or_take_over : SmBroker → Login → Option ServiceBroker → Exec (Unit {0})
  create_or_take_over b l none = create_proxy b l
  create_or_take_over b l (some existing) = take_over b l existing

  unfoldable pub create_for : Notification → SmBroker → Exec (Unit {0})
  create_for n b =
      if env.strings_any_equals h.broker_blacklist b.name then raise blacklisted else (do
        found ← get_broker_by_name env b.name
        l ← login env h b.id n.id
        create_or_take_over b l found.0)

  -- OnCreate
  unfoldable pub on_create : (String → Result BrokerPayload) → Notification → Exec (Unit {0})
  on_create unmarshal n = do
    payload ← lift (unmarshal_payload unmarshal created n.payload)
    b ← deref payload.new_details.resource
    create_for n b
