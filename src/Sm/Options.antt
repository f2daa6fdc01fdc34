-- ===== src/Sm/Options.antt =====
-- options.go of pkg/sm
use service_broker_proxy.Prelude.{String, Bool, true, false, ◌&&◌, ◌==◌, if◌then◌else◌}
use service_broker_proxy.Prelude.Int.{ℤ, pos, ℤ_eq}
use service_broker_proxy.Types.{failed}
use service_broker_proxy.Exec.{Result, ok, err}

-- Settings; `has_transport` says whether `Transport` is not nil.
pub record Settings : Type 0 where
  pub user : String
  pub password : String
  pub url : String
  pub osb_api_path : String
  pub notifications_api_path : String
  pub request_timeout : ℤ
  pub skip_ssl_validation : Bool
  pub visibilities_page_size : ℤ
  pub tls_client_key : String
  pub tls_client_certificate : String
  pub has_transport : Bool

-- DefaultSettings
abbrev pub default_settings : Settings
default_settings = record {
  user = "";
  password = "";
  url = "";
  osb_api_path = "/v1/osb";
  notifications_api_path = "/v1/notifications";
  request_timeout = pos 60_000_000_000;
  skip_ssl_validation = false;
  visibilities_page_size = pos 0;
  tls_client_key = "";
  tls_client_certificate = "";
  has_transport = false;
}

-- Validate
unfoldable pub validate : Settings → Result (Unit {0})
validate c =
    if c.user == ""
    then err (failed "SM configuration User missing")
    else if c.password == ""
    then err (failed "SM configuration Password missing")
    else if c.url == ""
    then err (failed "SM configuration URL missing")
    else if c.osb_api_path == ""
    then err (failed "SM configuration OSB API Path missing")
    else if c.notifications_api_path == ""
    then err (failed "SM configuration Notifications API path must be non-empty string")
    else if ℤ_eq c.request_timeout (pos 0)
    then err (failed "SM configuration RequestTimeout missing")
    else ok tt

-- GetCertificates: whether there is a certificate. `x509_key_pair` is tls.X509KeyPair.
unfoldable pub get_certificates : (String → String → Result (Unit {0})) → Settings → Result Bool
get_certificates x509_key_pair c =
    if (c.tls_client_certificate == "") && (c.tls_client_key == "")
    then ok false
    else elim (x509_key_pair c.tls_client_certificate c.tls_client_key) [
      | err e ↦ err (failed "invalidate TLS configuration")
      | ok u ↦ ok true
    ]

-- NewSettings; `unmarshal` is Environment.Unmarshal, which fills the configuration that it is given.
unfoldable pub new_settings : (Settings → Result Settings) → Result Settings
new_settings unmarshal = elim (unmarshal default_settings) [
  | err e ↦ err (failed "error unmarshaling SM configuration")
  | ok c ↦ ok c
]
