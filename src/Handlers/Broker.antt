-- ===== src/Handlers/Broker.antt =====
-- BrokerResourceNotificationsHandler of broker_handler.go. An early return is an error that ends the
-- handler only, as the consumer goes on with the next notification. The three handlers are in the modules below.
pub mod Create
pub mod Update
pub mod Delete
pub mod Confirmed
pub mod Ownership
pub mod Takeover
pub mod Sparing
use service_broker_proxy.Prelude.{
  String, ◌<>◌, Bool, true, false, ◌&&◌, Option, none, some, List, ◌==◌, if◌then◌else◌,
}
use service_broker_proxy.Types.{ServiceBroker, Credential, SmBroker}
use service_broker_proxy.Exec.{Exec, pure, attempt, ◌>>=◌, ◌>>◌}
use service_broker_proxy.Clients.{Env, reset_broker, put_credentials, activate_credentials}
use service_broker_proxy.Clients.Credentials.{generate_broker_platform_credentials}
use service_broker_proxy.Utils.{broker_proxy_name}

-- `has_catalog_fetcher`, `is_caching` and `name_provider` say which optional interfaces the clients
-- that the handler was given implement.
pub record BrokerHandler : Type 0 where
  pub has_catalog_fetcher : Bool
  pub is_caching : Bool
  pub name_provider : Option (String → String)
  pub default_broker_username : String
  pub default_broker_password : String
  pub proxy_prefix : String
  pub sm_path : String
  pub broker_blacklist : List String
  pub takeover_enabled : Bool
  pub broker_credentials_enabled : Bool

abbrev pub broker_proxy_path : BrokerHandler → SmBroker → String
broker_proxy_path h b = h.sm_path <> ("/" <> b.id)

abbrev pub proxy_name : BrokerHandler → SmBroker → String
proxy_name h b = broker_proxy_name h.name_provider b.name b.id h.proxy_prefix

abbrev pub should_be_taken_over : ServiceBroker → SmBroker → Bool
should_be_taken_over platform sm = platform.broker_url == sm.broker_url && platform.name == sm.name

abbrev pub determine_broker_name_to_find : String → String → String
determine_broker_name_to_find old new = if old == new then new else old

-- The user name and password for the platform, and the credentials to put if they are enabled.
pub record Login : Type 0 where
  pub username : String
  pub password : String
  pub credentials : Option Credential

module _ (env : Env) (h : BrokerHandler) where
  unfoldable pub login : String → String → Exec Login
  unfolding generate_broker_platform_credentials
  login broker_id notification_id =
      if h.broker_credentials_enabled
      then (do
        g ← generate_broker_platform_credentials env
        pure (record {
          username = g.username;
          password = g.password;
          credentials = some (record {
            id = "";
            username = g.username;
            password_hash = g.password_hash;
            broker_id = broker_id;
            notification_id = notification_id;
          });
        }))
      else pure (record {
        username = h.default_broker_username;
        password = h.default_broker_password;
        credentials = none;
      })

  -- `if bnh.BrokerCredentialsEnabled { PutCredentials }`; the credentials are nil unless enabled.
  unfoldable pub register : Option Credential → Bool → Exec (Option Credential)
  unfolding put_credentials
  register none force = pure none
  register (some c) force = do r ← put_credentials env c force; pure (some r)

  -- `if bnh.BrokerCredentialsEnabled { activateCredentials }`; a failure is only logged.
  unfoldable pub activate : Option Credential → Exec (Unit {0})
  unfolding activate_credentials
  activate none = pure tt
  activate (some c) = do attempt (activate_credentials env c.id); pure tt

  reset_if : Option ServiceBroker → Bool → Exec (Unit {0})
  unfolding reset_broker
  reset_if none was_deleted = pure tt
  reset_if (some b) was_deleted = do attempt (reset_broker env b was_deleted); pure tt

  -- resetBrokerCache
  unfoldable pub reset_broker_cache : Option ServiceBroker → Option ServiceBroker → Exec (Unit {0})
  unfolding reset_if
  reset_broker_cache old new =
      if h.is_caching then reset_if old true >> reset_if new false else pure tt
