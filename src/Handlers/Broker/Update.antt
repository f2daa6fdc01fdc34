-- ===== src/Handlers/Broker/Update.antt =====
-- OnUpdate of BrokerResourceNotificationsHandler.
use service_broker_proxy.Prelude.{String, false, Option, none, some, ◌==◌, if◌then◌else◌}
use service_broker_proxy.Types.{
  Error, blacklisted, broker_missing, not_taken_over, no_catalog_fetcher, ServiceBroker,
  UpdateRequest, SmBroker, Notification, modified,
}
use service_broker_proxy.Exec.{Result, Exec, pure, raise, lift, deref, ◌>>=◌, ◌>>◌}
use service_broker_proxy.Clients.{Env, get_broker_by_name, update_broker, fetch}
use service_broker_proxy.Handlers.Payload.{BrokerPayload, unmarshal_payload}
use service_broker_proxy.Handlers.Broker.{
  BrokerHandler, broker_proxy_path, proxy_name, determine_broker_name_to_find, Login, login,
  register, activate, reset_broker_cache,
}

-- `GetBrokerByName` with the two checks behind it: an error, or a nil broker, ends the handler.
unfoldable pub found_broker : Option ServiceBroker × Option Error → Exec ServiceBroker
found_broker (b, some e) = raise e
found_broker (none, none) = raise broker_missing
found_broker (some b, none) = pure b

abbrev pub update_request : BrokerHandler → SmBroker → Login → ServiceBroker → UpdateRequest
update_request h after l existing = record {
  id = after.id;
  guid = existing.guid;
  name = proxy_name h after;
  broker_url = broker_proxy_path h after;
  username = l.username;
  password = l.password;
}

module _ (env : Env) (h : BrokerHandler) where
  -- the broker was renamed
  unfoldable pub rename : SmBroker → Login → ServiceBroker → Exec (Unit {0})
  unfolding update_broker register activate reset_broker_cache
  rename after l existing = do
    response ← register env h l.credentials false
    new_broker ← update_broker env (update_request h after l existing)
    reset_broker_cache env h (some existing) (some new_broker)
    activate env h response

  -- the broker kept its name
  unfoldable pub refetch : SmBroker → Login → ServiceBroker → Exec (Unit {0})
  unfolding fetch register activate reset_broker_cache
  refetch after l existing = do
    response ← register env h l.credentials false
    fetch env (update_request h after l existing)
    reset_broker_cache env h none (
        some (record {
          guid = existing.guid;
          name = proxy_name h after;
          broker_url = broker_proxy_path h after;
        }))
    activate env h response

  -- OnUpdate, after the broker of the platform was found
  unfoldable pub update_existing :
      Notification → SmBroker → SmBroker → ServiceBroker → Exec (Unit {0})
  update_existing n before after existing =
      if existing.broker_url == broker_proxy_path h after
      then (do
        l ← login env h after.id n.id
        (if proxy_name h before == proxy_name h after
            then (if h.has_catalog_fetcher
                then refetch after l existing
                else raise no_catalog_fetcher)
            else rename after l existing))
      else raise not_taken_over

  unfoldable pub update_for : Notification → SmBroker → SmBroker → Exec (Unit {0})
  update_for n before after =
      if env.strings_any_equals h.broker_blacklist before.name then raise blacklisted else (do
        answer ←
            get_broker_by_name env
              (determine_broker_name_to_find (proxy_name h before) (proxy_name h after))
        existing ← found_broker answer
        update_existing n before after existing)

  -- OnUpdate
  unfoldable pub on_update : (String → Result BrokerPayload) → Notification → Exec (Unit {0})
  on_update unmarshal n = do
    payload ← lift (unmarshal_payload unmarshal modified n.payload)
    before ← deref payload.old_details.resource
    after ← deref payload.new_details.resource
    update_for n before after
