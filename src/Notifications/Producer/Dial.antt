-- ===== src/Notifications/Producer/Dial.antt =====
-- NewProducer, buildNotificationsURL and createConnectContext of producer.go, and what connect hands
-- to the websocket dialer. The URL, base64 and uuid packages are parameters.
use service_broker_proxy.Prelude.{
  String, ◌<>◌, Bool, false, Option, none, some, ◌==◌, if◌then◌else◌,
}
use service_broker_proxy.Prelude.Int.{ℤ, pos}
use service_broker_proxy.Exec.{Result, ok, err, and_then}
use service_broker_proxy.Sm.Options
use service_broker_proxy.Sm.Options.{get_certificates}
use service_broker_proxy.Notifications.Producer.{
  ProducerSettings, Producer, Attempt, bad_certificates, known_revision, connect,
}

-- A parsed URL; `rest` is all but the scheme and the path.
pub record Url : Type 0 where
  pub scheme : String
  pub path : String
  pub rest : String

pub record Library : Type 0 where
  -- url.Parse
  pub parse_url : String → Result Url
  -- path.Join
  pub join_path : String → String → String
  -- base64.StdEncoding.EncodeToString
  pub base64 : String → String
  -- tls.X509KeyPair
  pub x509_key_pair : String → String → Result (Unit {0})

-- The switch of buildNotificationsURL.
unfoldable pub websocket_scheme : String → String
websocket_scheme scheme =
    if scheme == "http" then "ws" else if scheme == "https" then "wss" else scheme

-- The result of createConnectContext that connect uses: the correlation id of the log, or else a new
-- one, or none.
unfoldable pub correlation_id : String → Result String → Option String
correlation_id existing (ok new) = some (if existing == "" then new else existing)
correlation_id existing (err e) = if existing == "" then none else some existing

-- What the dialer gets: the URL with its query, the headers, and its settings.
pub record Dial : Type 0 where
  pub url : Url
  pub last_known_revision : Option ℤ
  pub authorization : String
  pub correlation_id : Option String
  pub handshake_timeout : ℤ
  pub skip_ssl_validation : Bool
  pub has_certificate : Bool

module _ (l : Library) where
  -- buildNotificationsURL
  unfoldable pub build_notifications_url : String → String → Result Url
  build_notifications_url base_url notifications_path = and_then (l.parse_url base_url) (λ u.
      ok (record {
        scheme = websocket_scheme u.scheme;
        path = l.join_path u.path notifications_path;
        rest = u.rest;
      }))

  module _ (invalid_revision : ℤ) where
    -- NewProducer: the URL and the rest of the state.
    unfoldable pub new_producer : ProducerSettings → Options.Settings → Result (Url × Producer)
    new_producer settings sm =
        and_then (build_notifications_url sm.url sm.notifications_api_path) (λ url. ok (
          url,
          record {
            settings = settings;
            last_notification_revision = invalid_revision;
            has_conn = false;
            ping_period = pos 0;
            read_timeout = pos 0;
          },
        ))

    -- connect up to DialContext
    unfoldable pub dial : Url → Options.Settings → Option String → Producer → Result Dial
    dial url sm id p = and_then (get_certificates l.x509_key_pair sm) (λ has_certificate.
        ok (record {
          url = url;
          last_known_revision = known_revision invalid_revision p;
          authorization = "Basic " <> l.base64 (sm.user <> (":" <> sm.password));
          correlation_id = id;
          handshake_timeout = sm.request_timeout;
          skip_ssl_validation = sm.skip_ssl_validation;
          has_certificate = has_certificate;
        }))

    attempt_of : (Dial → Attempt) → Result Dial → Attempt
    attempt_of dialer (ok d) = dialer d
    attempt_of dialer (err e) = bad_certificates

    -- connect with a dialer
    unfoldable pub connect_with :
        (Dial → Attempt)
        → Url
        → Options.Settings
        → Option String
        → Producer
        → Result (Unit {0}) × Producer
    unfolding attempt_of
    connect_with dialer url sm id p =
        connect invalid_revision (attempt_of dialer (dial url sm id p)) p
