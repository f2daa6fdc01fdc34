-- ===== src/Sbproxy.antt =====
-- pkg/sbproxy/options.go and sbproxy.go: the settings, and how New puts the parts together.
pub mod Confirmed
pub mod Plain
pub mod Sparing
pub mod Composition
pub mod Shutdown
pub mod Environment
use service_broker_proxy.Prelude.{
  String, ◌<>◌, Bool, Option, List, [], ◌∷◌, true, false, if◌then◌else◌,
}
use service_broker_proxy.Prelude.Dict.{Dict}
use service_broker_proxy.Types.{Notification}
use service_broker_proxy.Exec.{Log, Result, ok, err, Exec}
use service_broker_proxy.Clients.{Env}
use service_broker_proxy.Handlers.Payload.{BrokerPayload}
use service_broker_proxy.Handlers.Broker.{BrokerHandler}
use service_broker_proxy.Handlers.Broker.Create
use service_broker_proxy.Handlers.Broker.Update
use service_broker_proxy.Handlers.Broker.Delete
use service_broker_proxy.Handlers.Visibility.{VisibilityPayload, VisibilityHandler}
use service_broker_proxy.Handlers.Visibility.Events
use service_broker_proxy.Reconcile
use service_broker_proxy.Reconcile.Job.{ResyncJob}
use service_broker_proxy.Reconcile.Resyncer.{resync}
use service_broker_proxy.Reconcile.Reconciler.{Message, resync_message, change}
use service_broker_proxy.Notifications.Consumer.{ResourceHandler, consume}
use service_broker_proxy.Notifications.Producer
use service_broker_proxy.Sm.Options
use service_broker_proxy.Authn

-- Settings. The server's, the log's and the health check's are the Service Manager's; of them only
-- the results of their validation are used.
pub record Settings : Type 0 where
  pub server_valid : Result (Unit {0})
  pub log_valid : Result (Unit {0})
  pub sm : Options.Settings
  pub reconcile : Reconcile.Settings.Settings
  pub producer : Producer.ProducerSettings
  pub health_valid : Result (Unit {0})
  pub authentication : Authn.Settings

-- DefaultSettings; the results of validating the Service Manager's own defaults are parameters.
unfoldable pub default_settings :
    Result (Unit {0}) → Result (Unit {0}) → Result (Unit {0}) → Settings
default_settings server_valid log_valid health_valid = record {
  server_valid = server_valid;
  log_valid = log_valid;
  sm = Options.default_settings;
  reconcile = Reconcile.Settings.default_settings;
  producer = Producer.default_producer_settings;
  health_valid = health_valid;
  authentication = Authn.default_settings;
}

-- NewSettings; `unmarshal` is Environment.Unmarshal.
unfoldable pub new_settings :
    (Settings → Result Settings)
    → Result (Unit {0})
    → Result (Unit {0})
    → Result (Unit {0})
    → Result Settings
new_settings unmarshal server_valid log_valid health_valid =
    unmarshal (default_settings server_valid log_valid health_valid)

first_error : List (Result (Unit {0})) → Result (Unit {0})
first_error [] = ok tt
first_error (ok u ∷ rest) = first_error rest
first_error (err e ∷ rest) = err e

-- Validate
unfoldable pub validate : Settings → Result (Unit {0})
unfolding first_error
validate c = first_error (
    c.server_valid
    ∷ c.log_valid
    ∷ Options.validate c.sm
    ∷ Reconcile.Settings.validate c.reconcile
    ∷ Producer.validate c.producer
    ∷ c.health_valid
    ∷ [])

-- APIPrefix
abbrev pub api_prefix : String
api_prefix = "/v1/osb"

-- BrokerPathParam
abbrev pub broker_path_param : String
broker_path_param = "brokerID"

-- Path of the OSB API of the proxy
abbrev pub path : String
path = api_prefix <> ("/{" <> (broker_path_param <> "}"))

-- What a platform.Client offers: which clients are not nil, and which optional interfaces the client
-- itself and its broker and visibility clients implement.
pub record PlatformClient : Type 0 where
  pub has_broker_client : Bool
  pub has_visibility_client : Bool
  pub has_catalog_fetcher : Bool
  pub is_catalog_fetcher : Bool
  pub is_caching : Bool
  pub broker_is_caching : Bool
  pub names : Option (String → String)
  pub broker_names : Option (String → String)
  pub visibility_names : Option (String → String)
  pub visibility_scope_label_key : String

module _ (c : Settings) (p : PlatformClient) where
  abbrev pub sm_path : String
  sm_path = c.reconcile.url <> api_prefix

  -- The resyncer of New. Sprintf puts the id for the `%s` at the end of `proxyPathPattern`; a `%` in
  -- the legacy URL itself is not modelled.
  abbrev pub resync_job : ResyncJob
  resync_job = record {
    options = c.reconcile;
    has_broker_client = p.has_broker_client;
    has_visibility_client = p.has_visibility_client;
    is_catalog_fetcher = p.is_catalog_fetcher;
    is_caching = p.is_caching;
    name_provider = p.names;
    visibility_scope_label_key = p.visibility_scope_label_key;
    default_broker_username = c.sm.user;
    default_broker_password = c.sm.password;
    sm_path = sm_path;
    proxy_path = λ id. c.reconcile.legacy_url <> (api_prefix <> ("/" <> id));
  }

  abbrev pub broker_handler : BrokerHandler
  broker_handler = record {
    has_catalog_fetcher = p.has_catalog_fetcher;
    is_caching = p.broker_is_caching;
    name_provider = p.broker_names;
    default_broker_username = c.sm.user;
    default_broker_password = c.sm.password;
    proxy_prefix = c.reconcile.broker_prefix;
    sm_path = sm_path;
    broker_blacklist = c.reconcile.broker_blacklist;
    takeover_enabled = c.reconcile.takeover_enabled;
    broker_credentials_enabled = c.reconcile.broker_credentials_enabled;
  }

  abbrev pub visibility_handler : VisibilityHandler
  visibility_handler = record {
    has_client = p.has_visibility_client;
    name_provider = p.visibility_names;
    proxy_prefix = c.reconcile.broker_prefix;
    broker_blacklist = c.reconcile.broker_blacklist;
  }

-- What the proxy takes from libraries besides its clients: json.Unmarshal at the two payload types, and
-- the texts types.ServiceBrokerType and types.VisibilityType.
pub record Libraries : Type 0 where
  pub service_broker_type : String
  pub visibility_type : String
  pub broker_payload : String → Result BrokerPayload
  pub visibility_payload : String → Result VisibilityPayload

module _ (env : Env) (d : Libraries) (c : Settings) (p : PlatformClient) where
  unfoldable pub broker_resource_handler : ResourceHandler
  broker_resource_handler = record {
    on_create = Create.on_create env (broker_handler c p) d.broker_payload;
    on_update = Update.on_update env (broker_handler c p) d.broker_payload;
    on_delete = Delete.on_delete env (broker_handler c p) d.broker_payload;
  }

  unfoldable pub visibility_resource_handler : ResourceHandler
  visibility_resource_handler = record {
    on_create =
        Events.on_create env (resync env (resync_job c p)) (visibility_handler c p)
          d.visibility_payload;
    on_update = Events.on_update env (visibility_handler c p) d.visibility_payload;
    on_delete = Events.on_delete env (visibility_handler c p) d.visibility_payload;
  }

  -- The consumer of New, with the object types of the Service Manager as keys.
  unfoldable pub handlers : Dict ResourceHandler
  handlers =
      (d.service_broker_type, broker_resource_handler)
      ∷ (d.visibility_type, visibility_resource_handler)
      ∷ []

  -- What Reconciler.process does with one message, after a drain if it is a resync message.
  unfoldable pub process_message : Message → Exec (Unit {0})
  process_message resync_message = resync env (resync_job c p) true
  process_message (change n) = consume handlers n

  -- The messages one after the other, whatever their errors: the log of all calls.
  unfoldable pub process_messages : List Message → Log → Log
  process_messages [] s = s
  process_messages (m ∷ ms) s = process_messages ms (process_message m s).1
