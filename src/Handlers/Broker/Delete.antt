-- ===== src/Handlers/Broker/Delete.antt =====
-- OnDelete of BrokerResourceNotificationsHandler.
use service_broker_proxy.Prelude.{String, none, some, ◌==◌, if◌then◌else◌}
use service_broker_proxy.Types.{
  blacklisted, not_taken_over, ServiceBroker, SmBroker, Notification, deleted,
}
use service_broker_proxy.Exec.{Result, Exec, raise, lift, deref, ◌>>=◌, ◌>>◌}
use service_broker_proxy.Clients.{Env, get_broker_by_name, delete_broker}
use service_broker_proxy.Handlers.Payload.{BrokerPayload, unmarshal_payload}
use service_broker_proxy.Handlers.Broker.{
  BrokerHandler, broker_proxy_path, proxy_name, reset_broker_cache,
}
use service_broker_proxy.Handlers.Broker.Update.{found_broker}

module _ (env : Env) (h : BrokerHandler) where
  -- OnDelete, after the broker of the platform was found
  unfoldable pub delete_existing : SmBroker → ServiceBroker → Exec (Unit {0})
  unfolding delete_broker reset_broker_cache
  delete_existing b existing =
      if existing.broker_url == broker_proxy_path h b
      then (do
        delete_broker env (record { id = b.id; guid = existing.guid; name = proxy_name h b })
        reset_broker_cache env h (some existing) none)
      else raise not_taken_over

  unfoldable pub delete_for : SmBroker → Exec (Unit {0})
  delete_for b = if env.strings_any_equals h.broker_blacklist b.name then raise blacklisted else (do
    answer ← get_broker_by_name env (proxy_name h b)
    existing ← found_broker answer
    delete_existing b existing)

  -- OnDelete
  unfoldable pub on_delete : (String → Result BrokerPayload) → Notification → Exec (Unit {0})
  on_delete unmarshal n = do
    payload ← lift (unmarshal_payload unmarshal deleted n.payload)
    b ← deref payload.old_details.resource
    delete_for b
