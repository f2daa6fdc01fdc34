-- ===== src/Examples.antt =====
-- A platform and a Service Manager that answer, and inputs, for the theorems' examples.
pub mod Runs
pub mod Plans
pub mod Concurrency
pub mod Composition
pub mod Platform
use service_broker_proxy.Prelude.{ℕ, String, Bool, true, false, Option, none, some, List, [], ◌∷◌}
use service_broker_proxy.Prelude.Int.{ℤ, pos}
use service_broker_proxy.Types.{
  failed, ServiceBroker, Visibility, SmBroker, SmVisibility, ServicePlan, ServiceOffering,
  Notification, modified, deleted, created,
}
use service_broker_proxy.Exec.{Result, ok, err}
use service_broker_proxy.Clients.{Env}
use service_broker_proxy.Handlers.Payload.{BrokerDetails, BrokerPayload}
use service_broker_proxy.Handlers.Broker.{BrokerHandler}
use service_broker_proxy.Handlers.Visibility.{VisibilityDetails, VisibilityPayload}
use service_broker_proxy.Reconcile
use service_broker_proxy.Reconcile.Job.{ResyncJob}
use service_broker_proxy.Notifications.Producer
use service_broker_proxy.Sm.Options
use service_broker_proxy.Authn
use service_broker_proxy.Sbproxy.{Settings, PlatformClient, Libraries}

abbrev pub own_broker : ServiceBroker
own_broker = record { guid = "g1"; name = "sm-db-b1"; broker_url = "https://proxy/v1/osb/b1" }

abbrev pub stale_broker : ServiceBroker
stale_broker = record { guid = "g2"; name = "sm-mq-b2"; broker_url = "https://proxy/v1/osb/b2" }

abbrev pub sm_broker : SmBroker
sm_broker = record { id = "b1"; name = "db"; broker_url = "https://db" }

abbrev pub offering : ServiceOffering
offering = record { id = "o1"; broker_id = "b1" }

abbrev pub plan : ServicePlan
plan = record { id = "p1"; catalog_id = "small"; service_offering_id = "o1" }

abbrev pub sm_visibility : SmVisibility
sm_visibility = record { id = "v1"; platform_id = ""; service_plan_id = "p1"; labels = [] }

abbrev pub sample_env : Env
sample_env = record {
  get_brokers = λ s. ok (own_broker ∷ stale_broker ∷ []);
  get_broker_by_name = λ s name. (some own_broker, none);
  create_broker = λ s r. ok own_broker;
  update_broker = λ s r. ok own_broker;
  delete_broker = λ s r. ok tt;
  fetch = λ s r. ok tt;
  reset_cache = λ s. ok tt;
  reset_broker = λ s b d. ok tt;
  get_visibilities_by_brokers = λ s names. ok [];
  enable_access_for_plan = λ s r. ok tt;
  disable_access_for_plan = λ s r. ok tt;
  get_sm_brokers = λ s. ok (sm_broker ∷ []);
  get_sm_visibilities = λ s ids. ok (sm_visibility ∷ []);
  get_sm_plans = λ s. ok (plan ∷ []);
  get_sm_service_offerings = λ s. ok (offering ∷ []);
  put_credentials = λ s c force. ok (record c { id = "c1" });
  activate_credentials = λ s id. ok tt;
  generate_credential = λ s. ok "secret";
  generate_from_password = λ s p. ok "hash";
  new_uuid = λ s. ok "u1";
  loop_lags = λ s. [];
  strings_any_equals = λ names name. false;
}

abbrev pub broker_payload : BrokerPayload
broker_payload = record {
  new_details = record { resource = some sm_broker; additional_valid = ok tt };
  old_details = record { resource = some sm_broker; additional_valid = ok tt };
}

abbrev pub libraries : Libraries
libraries = record {
  service_broker_type = "/v1/service_brokers";
  visibility_type = "/v1/visibilities";
  broker_payload = λ text. ok broker_payload;
  visibility_payload = λ text. err (failed "no visibility");
}

abbrev pub reconcile_settings : Reconcile.Settings.Settings
reconcile_settings = record Reconcile.Settings.default_settings {
  url = "https://proxy";
  legacy_url = "https://proxy";
}

abbrev pub settings : Settings
settings = record {
  server_valid = ok tt;
  log_valid = ok tt;
  sm = record Options.default_settings { user = "admin"; password = "admin"; url = "https://sm" };
  reconcile = reconcile_settings;
  producer = Producer.default_producer_settings;
  health_valid = ok tt;
  authentication = record Authn.default_settings { user = "admin"; password = "secret" };
}

abbrev pub client : PlatformClient
client = record {
  has_broker_client = true;
  has_visibility_client = true;
  has_catalog_fetcher = true;
  is_catalog_fetcher = true;
  is_caching = false;
  broker_is_caching = false;
  names = none;
  broker_names = none;
  visibility_names = none;
  visibility_scope_label_key = "org";
}

abbrev pub notification : Notification
notification = record {
  id = "n1";
  resource = "/v1/service_brokers";
  operation = modified;
  correlation_id = "";
  revision = pos 7;
  payload = "{}";
}

abbrev pub producer : Producer.Producer
producer = record {
  settings = Producer.default_producer_settings;
  last_notification_revision = pos 5;
  has_conn = false;
  ping_period = pos 0;
  read_timeout = pos 0;
}

abbrev pub good : ℤ → Producer.Headers
good revision = record {
  last_known_revision = some (ok revision);
  max_ping_period = ok (pos 30_000_000_000);
}
