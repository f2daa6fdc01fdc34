-- ===== src/Examples/Composition.antt =====
-- The theorems on the Service Manager client, the dial and New, applied to sample inputs.
use service_broker_proxy.Prelude.{
  ℕ, arith, String, ◌<>◌, ◌≡◌, ◌↔◌, refl, true, false, ◌&&◌, ◌||◌, none, some, [], ◌∷◌, ◌==◌,
}
use service_broker_proxy.Prelude.Int.{pos, negsuc}
use service_broker_proxy.Types.{conflicting_credentials, Credential}
use service_broker_proxy.Exec.{Result, ok, err}
use service_broker_proxy.Reconcile.Urls.{is_char}
use text.Mathlib.TextLemmas.{nil-append, cons-append}
use Prim.Native.Char.{Char}
use service_broker_proxy.Prelude.{Option, if◌then◌else◌}
use service_broker_proxy.Sm.Options
use service_broker_proxy.Sm.Options.{get_certificates}
use service_broker_proxy.Sm.Transport.{Http, round_trip}
use service_broker_proxy.Sm.Client.{SmClient, response, new_client, put_credentials_url}
use service_broker_proxy.Sm.Client.Calls as Calls
use service_broker_proxy.Sm.Client.Calls.{Routes, put_request, put_credentials}
use service_broker_proxy.Sm.Client.Conflict.{IsConflict, put_credentials-IsConflict}
use service_broker_proxy.Sm.Client.Authorized.{HasNoColon, ReadsBack, new_client-authorizes}
use service_broker_proxy.Notifications.Producer.{
  accepted, refused, connect, read_response_headers, read_revision, known_revision,
}
use service_broker_proxy.Notifications.Producer.Loop.{received, stopped, rounds, round}
use service_broker_proxy.Notifications.Producer.Dial as Dial
use service_broker_proxy.Notifications.Producer.Dial.{Url, dial}
use service_broker_proxy.Notifications.Producer.Resumption.{dial_resumes}
use service_broker_proxy.Sbproxy.{validate}
use service_broker_proxy.Sbproxy.Shutdown.{returned, in_time, ended, timeout_without_effect}
use service_broker_proxy.Sbproxy.Composition.{Services, new}
use service_broker_proxy.Sbproxy.Composition.Success.{is_ok, is_ok-new}
use service_broker_proxy.Examples.{
  sample_env, libraries, settings, client, notification, producer, good,
}

abbrev key_pair : String → String → Result (Unit {0})
key_pair certificate key = ok tt

abbrev sm_client : SmClient
sm_client = record {
  url = "https://sm";
  visibilities_page_size = pos 0;
  request_timeout = pos 60_000_000_000;
  basic_auth = record { username = "admin"; password = "admin" };
  ssl = some (record { skip_ssl_validation = false; has_certificate = false; rt = none });
}

-- A request is its header, without the encoding in base 64.
abbrev with_first : Char → Option (String × String) → Option (String × String)
with_first c none = none
with_first c (some (username, password)) = some (String.◌∷◌ c username, password)

abbrev split : String → Option (String × String)
split String.[] = none
split (String.◌∷◌ c rest) =
    let later = with_first c (split rest) in if is_char b':' c then some ("", rest) else later

abbrev sample_http : Http
sample_http = record {
  Request = String;
  set_basic_auth = λ request username password. username <> (":" <> password);
  basic_auth = split;
}

split-colon : (password : String) → split (":" <> password) ≡ some ("", password)
split-colon password = rw cons-append (rw nil-append refl)

split-append :
    (username password : String)
    → HasNoColon username
    → split (username <> (":" <> password)) ≡ some (username, password)
split-append String.[] password h = rw nil-append (split-colon password)
split-append (String.◌∷◌ c rest) password (no_colon, h) =
    rw cons-append (rw (no_colon, split-append rest password h) refl)

sample_http-ReadsBack : ReadsBack sample_http
sample_http-ReadsBack request username password h = split-append username password h

new_client-authorizes_example :
    split (round_trip sample_http sm_client.basic_auth "x:y") ≡ some ("admin", "admin")
unfolding new_client Options.validate get_certificates
new_client-authorizes_example =
    new_client-authorizes sample_http key_pair settings.sm sm_client "x:y" sample_http-ReadsBack
      (refl, (refl, (refl, (refl, (refl, tt))))) refl

abbrev credential : Credential
credential = record {
  id = "c1";
  username = "user";
  password_hash = "hash";
  broker_id = "b1";
  notification_id = "";
}

abbrev conflicting : Calls.Library
conflicting = record {
  marshal = λ c. ok "{}";
  new_request = λ url. ok tt;
  send = λ request. response 409 (ok credential);
  url_with_query = λ url params. ok url;
  list_brokers = λ url. ok [];
  list_visibilities = λ url. ok [];
  list_plans = λ url. ok [];
  list_offerings = λ url. ok [];
  itoa = λ n. "1";
}

abbrev routes : Routes
routes = record {
  service_brokers = "/v1/service_brokers";
  visibilities = "/v1/visibilities";
  service_plans = "/v1/service_plans";
  service_offerings = "/v1/service_offerings";
  broker_platform_credentials = "/v1/credentials";
}

put_credentials-IsConflict_example :
    put_credentials conflicting routes sm_client credential true ≡ err conflicting_credentials ↔ (
      (body : String) × (conflicting.marshal credential ≡ ok body)
      × ((u : Unit {0}) × (conflicting.new_request
              (put_credentials_url sm_client routes.broker_platform_credentials true)
            ≡ ok u)
          × IsConflict (conflicting.send (put_request conflicting routes sm_client true body))))
put_credentials-IsConflict_example =
    put_credentials-IsConflict conflicting routes sm_client credential true tt tt (λ request. tt)

abbrev notifications_url : Url
notifications_url = record { scheme = "wss"; path = "/v1/notifications"; rest = "sm" }

abbrev dial_library : Dial.Library
dial_library = record {
  parse_url = λ text. ok (record { scheme = "https"; path = ""; rest = "sm" });
  join_path = λ a b. a <> b;
  base64 = λ text. text;
  x509_key_pair = key_pair;
}

abbrev resumed : Dial.Dial
resumed = record {
  url = notifications_url;
  last_known_revision = some (pos 7);
  authorization = "Basic admin:admin";
  correlation_id = none;
  handshake_timeout = pos 60_000_000_000;
  skip_ssl_validation = false;
  has_certificate = false;
}

dial_resumes_example : resumed.last_known_revision ≡ some notification.revision
unfolding dial known_revision get_certificates rounds round connect read_response_headers
    read_revision
dial_resumes_example =
    dial_resumes (negsuc 0) dial_library notifications_url settings.sm none (good (pos 6))
      (received notification ∷ stopped ∷ [])
      ((refused none, []) ∷ (accepted (good (pos 9)), stopped ∷ []) ∷ []) [] notification producer
      {d = resumed} refl refl refl (refl, (refl, tt)) refl

abbrev services : Services
services = record {
  configure_log = ok tt;
  new_oidc_authenticator = λ issuer id. ok tt;
  config_url = "/v1/config";
  invalid_revision = negsuc 0;
  producer_library = dial_library;
}

is_ok-new_example : is_ok (new services sample_env libraries settings client) ≡ (
    is_ok (validate settings)
    && is_ok services.configure_log
    && (settings.authentication.token_issuer_url == ""
        || is_ok (
            services.new_oidc_authenticator settings.authentication.token_issuer_url
              settings.authentication.client_id))
    && is_ok (get_certificates services.producer_library.x509_key_pair settings.sm)
    && is_ok (services.producer_library.parse_url settings.sm.url))
is_ok-new_example = is_ok-new services sample_env libraries settings client

timeout_without_effect_example : (returned ≡ returned) × ((t : ℕ) × (some 5 ≡ some t))
timeout_without_effect_example =
    timeout_without_effect (some 5) (some 3) 10 returned (ground arith)
      (ended {s = 3} {t = 5} refl refl (in_time {t = 5} refl (ground arith)))
