-- ===== src/Clients/Credentials.antt =====
-- pkg/util/credentials.go
use service_broker_proxy.Prelude.{String}
use service_broker_proxy.Exec.{Exec, pure, ◌>>=◌}
use service_broker_proxy.Clients.{Env, generate_credential, generate_from_password}

pub record Generated : Type 0 where
  pub username : String
  pub password : String
  pub password_hash : String

-- GenerateBrokerPlatformCredentials
unfoldable pub generate_broker_platform_credentials : Env → Exec Generated
unfolding generate_credential generate_from_password
generate_broker_platform_credentials env = do
  username ← generate_credential env
  password ← generate_credential env
  password_hash ← generate_from_password env password
  pure (record { username = username; password = password; password_hash = password_hash })
