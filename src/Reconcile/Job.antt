-- ===== src/Reconcile/Job.antt =====
-- The resync job: resyncer.go, NewResyncer and its fields.
use service_broker_proxy.Prelude.{String, ◌<>◌, Bool, Option}
use service_broker_proxy.Types.{ServiceBroker}
use service_broker_proxy.Reconcile.Settings.{Settings}
use service_broker_proxy.Utils.{broker_proxy_name}

-- resyncJob. The flags and `name_provider` say which optional interfaces the platform client
-- implements. `proxy_path` is `proxyPathPattern` with the broker id for its `%s`.
pub record ResyncJob : Type 0 where
  pub options : Settings
  pub has_broker_client : Bool
  pub has_visibility_client : Bool
  pub is_catalog_fetcher : Bool
  pub is_caching : Bool
  pub name_provider : Option (String → String)
  pub visibility_scope_label_key : String
  pub default_broker_username : String
  pub default_broker_password : String
  pub sm_path : String
  pub proxy_path : String → String

-- utils.BrokerProxyName, as the job calls it
abbrev pub proxy_name : ResyncJob → ServiceBroker → String
proxy_name r b = broker_proxy_name r.name_provider b.name b.guid r.options.broker_prefix

-- The URL of a proxy broker: `r.smPath + "/" + GUID`
abbrev pub proxy_url : ResyncJob → ServiceBroker → String
proxy_url r b = r.sm_path <> ("/" <> b.guid)
