-- ===== src/Authn.antt =====
-- pkg/authn: the settings of the authentication, and the basic authenticator.
use service_broker_proxy.Prelude.{
  String, Bool, true, false, ◌||◌, not, Option, none, some, ◌==◌, if◌then◌else◌,
}
use service_broker_proxy.Sm.Transport.{Http}

-- Settings
pub record Settings : Type 0 where
  pub user : String
  pub password : String
  pub token_issuer_url : String
  pub client_id : String
  pub skip_ssl_validation : Bool

-- DefaultSettings
abbrev pub default_settings : Settings
default_settings = record {
  user = "";
  password = "";
  token_issuer_url = "";
  client_id = "";
  skip_ssl_validation = false;
}

-- inmemoryBasicAuthenticator
pub record InMemoryBasicAuthenticator : Type 0 where
  pub expected_username : String
  pub expected_password : String

-- NewInMemoryAuthenticator
unfoldable pub new_in_memory_authenticator : String → String → InMemoryBasicAuthenticator
new_in_memory_authenticator user password = record {
  expected_username = user;
  expected_password = password;
}

-- httpsec.Decision
pub data Decision : Type 0 where
  allow deny abstain : Decision

-- What Authenticate returns: the user, the decision, and whether there is an error.
pub record Outcome : Type 0 where
  pub user : Option String
  pub decision : Decision
  pub failed : Bool

-- Authenticate
unfoldable pub authenticate : (h : Http) → InMemoryBasicAuthenticator → h.Request → Outcome
authenticate h a request = elim (h.basic_auth request) [
  | none ↦ record { user = none; decision = abstain; failed = false }
  | some (username, password) ↦
      if not (username == a.expected_username) || not (password == a.expected_password)
      then record { user = none; decision = deny; failed = true }
      else record { user = some username; decision = allow; failed = false }
]
