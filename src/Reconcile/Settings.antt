-- ===== src/Reconcile/Settings.antt =====
-- reconcile_settings.go
use service_broker_proxy.Prelude.{String, Bool, true, List, [], ◌==◌, if◌then◌else◌}
use service_broker_proxy.Prelude.Int.{ℤ, pos, is_positive}
use service_broker_proxy.Types.{failed}
use service_broker_proxy.Exec.{Result, ok, err}

-- An `int` of the source is a ℤ.
pub record Settings : Type 0 where
  pub legacy_url : String
  pub max_parallel_requests : ℤ
  pub url : String
  pub broker_prefix : String
  pub broker_blacklist : List String
  pub takeover_enabled : Bool
  pub broker_credentials_enabled : Bool
  pub visibility_broker_chunk_size : ℤ

-- DefaultProxyBrokerPrefix
abbrev pub default_proxy_broker_prefix : String
default_proxy_broker_prefix = "sm-"

-- DefaultSettings
abbrev pub default_settings : Settings
default_settings = record {
  legacy_url = "";
  max_parallel_requests = pos 5;
  url = "";
  broker_prefix = default_proxy_broker_prefix;
  broker_blacklist = [];
  takeover_enabled = true;
  broker_credentials_enabled = true;
  visibility_broker_chunk_size = pos 0;
}

-- Validate
unfoldable pub validate : Settings → Result (Unit {0})
validate c =
    if c.legacy_url == ""
    then err (failed "validate settings: missing legacy url")
    else if c.url == ""
    then err (failed "validate settings: missing url")
    else if is_positive c.max_parallel_requests
    then ok tt
    else err (failed "validate settings: max parallel requests must be positive number")
