-- ===== src/Sbproxy/Composition.antt =====
-- sbproxy.go: New with its errors, Build and installHealth. What they call of the Service Manager's
-- packages is a parameter.
pub mod Success
use service_broker_proxy.Prelude.{
  String, ◌<>◌, Bool, true, false, ◌&&◌, not, List, [], ◌∷◌, ◌++◌, ◌==◌, if◌then◌else◌,
}
use service_broker_proxy.Prelude.Int.{ℤ}
use service_broker_proxy.Prelude.Dict.{Dict}
use service_broker_proxy.Exec.{Result, ok, err, and_then}
use service_broker_proxy.Clients.{Env}
use service_broker_proxy.Reconcile.Job.{ResyncJob}
use service_broker_proxy.Notifications.Consumer.{ResourceHandler}
use service_broker_proxy.Notifications.Producer.{Producer}
use service_broker_proxy.Notifications.Producer.Dial as Dial
use service_broker_proxy.Notifications.Producer.Dial.{Url, new_producer}
use service_broker_proxy.Authn.{InMemoryBasicAuthenticator, new_in_memory_authenticator}
use service_broker_proxy.Sm.Client.{SmClient, new_client}
use service_broker_proxy.Sm.Client.Calls.{wrap}
use service_broker_proxy.Sbproxy.{
  Settings, validate, PlatformClient, Libraries, resync_job, handlers,
}

-- An authenticator of a security rule: the basic one, or one of OpenID Connect for an issuer and a client.
pub data Authenticator : Type 0 where
  basic : InMemoryBasicAuthenticator → Authenticator
  bearer : String → String → Authenticator

-- A rule of the security builder, for GET and PUT, with required authentication.
pub record Rule : Type 0 where
  pub path : String
  pub authenticator : Authenticator

pub record Services : Type 0 where
  -- log.Configure
  pub configure_log : Result (Unit {0})
  -- the error of authenticators.NewOIDCAuthenticator for an issuer and a client
  pub new_oidc_authenticator : String → String → Result (Unit {0})
  -- web.ConfigURL
  pub config_url : String
  -- types.InvalidRevision
  pub invalid_revision : ℤ
  pub producer_library : Dial.Library

-- SMProxyBuilder, with what its reconciler consists of.
pub record SmProxyBuilder : Type 0 where
  pub rules : List Rule
  pub client : SmClient
  pub notifications_url : Url
  pub producer : Producer
  pub resyncer : ResyncJob
  pub consumer : Dict ResourceHandler

module _ (w : Services) (c : Settings) where
  -- `if len(authnSettings.User) != 0 && len(authnSettings.Password) != 0`
  unfoldable pub basic_rules : List Rule
  basic_rules =
      if not (c.authentication.user == "") && not (c.authentication.password == "")
      then record {
        path = w.config_url <> "/**";
        authenticator =
            basic (new_in_memory_authenticator c.authentication.user c.authentication.password);
      }
        ∷ []
      else []

  -- `if len(authnSettings.TokenIssuerURL) != 0`
  unfoldable pub bearer_rules : Result (List Rule)
  bearer_rules =
      if c.authentication.token_issuer_url == ""
      then ok []
      else and_then
          (w.new_oidc_authenticator c.authentication.token_issuer_url c.authentication.client_id)
          (λ _. ok (
            record {
              path = w.config_url <> "/**";
              authenticator = bearer c.authentication.token_issuer_url c.authentication.client_id;
            }
            ∷ []))

module _ (w : Services) (env : Env) (d : Libraries) (c : Settings) (p : PlatformClient) where
  -- New after the authenticators
  unfoldable pub new_connected : List Rule → Result SmProxyBuilder
  new_connected rules =
      and_then
        (wrap "error create service manager client"
          (new_client w.producer_library.x509_key_pair c.sm))
        (λ client.
          and_then
            (wrap "error creating notifications producer"
              (new_producer w.producer_library w.invalid_revision c.producer c.sm))
            (λ (url, producer). ok (record {
              rules = rules;
              client = client;
              notifications_url = url;
              producer = producer;
              resyncer = resync_job c p;
              consumer = handlers env d c p;
            })))

  -- New
  unfoldable pub new : Result SmProxyBuilder
  new = and_then (wrap "error validating settings" (validate c)) (λ _.
      and_then (wrap "error configuring logging" w.configure_log)
        (λ _. and_then (bearer_rules w c) (λ bearers. new_connected (basic_rules w c ++ bearers))))

-- Security; `reset` is SecurityBuilder.Reset.
abbrev pub security : (List Rule → List Rule) → SmProxyBuilder → List Rule
security reset b = reset b.rules

-- What installHealth does: the controller is registered, and a goroutine waits to stop the checks.
pub record Health : Type 0 where
  pub controller : Bool
  pub stops_at_the_end : Bool

-- installHealth, with the results of health.Configure and of Start
unfoldable pub install_health : Result (Unit {0}) → Result (Unit {0}) → Result (Unit {0}) × Health
install_health (err e) start = (err e, record { controller = false; stops_at_the_end = false })
install_health (ok u) (err e) = (err e, record { controller = true; stops_at_the_end = false })
install_health (ok u) (ok v) = (ok tt, record { controller = true; stops_at_the_end = true })

-- SMProxy: what its server guards, and what Run starts.
pub record SmProxy : Type 0 where
  pub rules : List Rule
  pub health : Health
  pub notifications_url : Url
  pub producer : Producer
  pub resyncer : ResyncJob
  pub consumer : Dict ResourceHandler

-- Build; an error of installHealth panics.
unfoldable pub build : Result (Unit {0}) → Result (Unit {0}) → SmProxyBuilder → Result SmProxy
build configure start b =
    let (r, health) = install_health configure start in
    and_then r (λ _. ok (record {
      rules = b.rules;
      health = health;
      notifications_url = b.notifications_url;
      producer = b.producer;
      resyncer = b.resyncer;
      consumer = b.consumer;
    }))
