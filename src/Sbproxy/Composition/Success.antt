-- ===== src/Sbproxy/Composition/Success.antt =====
-- When New returns a builder.
use service_broker_proxy.Prelude.{
  String, ◌≡◌, refl, ◌∙◌, Bool, true, false, ◌&&◌, ◌||◌, List, ◌∷◌, ◌==◌, arith, Bool-cases, inl,
  inr,
}
use service_broker_proxy.Exec.{Result, ok, err, and_then}
use service_broker_proxy.Clients.{Env}
use service_broker_proxy.Notifications.Producer.{ProducerSettings}
use service_broker_proxy.Notifications.Producer.Dial as Dial
use service_broker_proxy.Notifications.Producer.Dial.{build_notifications_url, new_producer}
use service_broker_proxy.Sm.Options
use service_broker_proxy.Sm.Options.{get_certificates}
use service_broker_proxy.Sm.Client.{new_client}
use service_broker_proxy.Sm.Client.Calls.{wrap}
use service_broker_proxy.Sbproxy.{Settings, first_error, validate, PlatformClient, Libraries}
use service_broker_proxy.Sbproxy.Composition.{Services, Rule, bearer_rules, new_connected, new}

abbrev pub is_ok {ℓ} : {A : Type ℓ} → Result A → Bool
is_ok (ok a) = true
is_ok (err e) = false

&&-true : (b : Bool) → (b && true) ≡ b
&&-true true = refl
&&-true false = refl

module _ {ℓ} {A : Type ℓ} where
  is_ok-and_then {κ} :
      {B : Type κ} (r : Result A) (f : A → Result B) (b : Bool)
      → ((a : A) → is_ok (f a) ≡ b)
      → is_ok (and_then r f) ≡ (is_ok r && b)
  is_ok-and_then (ok a) f b h = h a
  is_ok-and_then (err e) f b h = refl

  is_ok-wrapped {κ} :
      {B : Type κ} (message : String) (r : Result A) (f : A → Result B) (b : Bool)
      → ((a : A) → is_ok (f a) ≡ b)
      → is_ok (and_then (wrap message r) f) ≡ (is_ok r && b)
  unfolding wrap
  is_ok-wrapped message (ok a) f b h = h a
  is_ok-wrapped message (err e) f b h = refl

is_ok-third :
    (a b c : Result (Unit {0})) (rest : List (Result (Unit {0})))
    → is_ok (first_error (a ∷ b ∷ c ∷ rest)) ≡ true
    → is_ok c ≡ true
unfolding first_error
is_ok-third (ok u) (ok v) (ok x) rest h = refl
is_ok-third (ok u) (ok v) (err e) rest h = h
is_ok-third (ok u) (err e) c rest h = ground arith
is_ok-third (err e) b c rest h = ground arith

-- Valid settings have valid settings for the Service Manager.
is_ok-validate-sm :
    (c : Settings) → is_ok (validate c) ≡ true → is_ok (Options.validate c.sm) ≡ true
unfolding validate
is_ok-validate-sm c h = is_ok-third c.server_valid c.log_valid (Options.validate c.sm) _ h

is_ok-new_client :
    (x : String → String → Result (Unit {0})) (c : Options.Settings)
    → is_ok (new_client x c) ≡ (is_ok (Options.validate c) && is_ok (get_certificates x c))
unfolding new_client
is_ok-new_client x c = ground arith

is_ok-new_producer :
    (l : Dial.Library) (i : _) (s : ProducerSettings) (c : Options.Settings)
    → is_ok (new_producer l i s c) ≡ is_ok (l.parse_url c.url)
unfolding new_producer build_notifications_url
is_ok-new_producer l i s c = ground arith

module _ (w : Services) (env : Env) (d : Libraries) (c : Settings) (p : PlatformClient) where
  is_ok-new_connected :
      (rules : List Rule)
      → is_ok (new_connected w env d c p rules) ≡ (
          is_ok (new_client w.producer_library.x509_key_pair c.sm)
          && is_ok (w.producer_library.parse_url c.sm.url))
  unfolding new_connected
  is_ok-new_connected rules = is_ok-wrapped _ _ _ _ (λ client.
      is_ok-wrapped _ _ _ true (λ _. refl)
      ∙ &&-true _
      ∙ is_ok-new_producer w.producer_library w.invalid_revision c.producer c.sm)

  is_ok-bearer_rules : is_ok (bearer_rules w c) ≡ (
      c.authentication.token_issuer_url == ""
      || is_ok
          (w.new_oidc_authenticator c.authentication.token_issuer_url c.authentication.client_id))
  unfolding bearer_rules
  is_ok-bearer_rules = elim (Bool-cases (c.authentication.token_issuer_url == "")) [
    | inl e ↦ rw e refl
    | inr e ↦ rw e (is_ok-and_then _ _ true (λ _. refl) ∙ &&-true _)
  ]

  -- New returns a builder if and only if the settings are valid, the log can be configured, no OIDC
  -- authenticator is wanted or one can be made, the TLS certificates of the settings can be used, and
  -- the URL of the Service Manager can be parsed.
  pub is_ok-new : is_ok (new w env d c p) ≡ (
      is_ok (validate c)
      && is_ok w.configure_log
      && (c.authentication.token_issuer_url == ""
          || is_ok (
              w.new_oidc_authenticator c.authentication.token_issuer_url
                c.authentication.client_id))
      && is_ok (get_certificates w.producer_library.x509_key_pair c.sm)
      && is_ok (w.producer_library.parse_url c.sm.url))
  unfolding new
  is_ok-new =
      let built : is_ok (new w env d c p) ≡ (
          is_ok (validate c)
          && (is_ok w.configure_log
              && (is_ok (bearer_rules w c)
                  && (is_ok (new_client w.producer_library.x509_key_pair c.sm)
                      && is_ok (w.producer_library.parse_url c.sm.url))))) =
        is_ok-wrapped _ _ _ _ (λ _.
          is_ok-wrapped _ _ _ _ (λ _. is_ok-and_then _ _ _ (λ bearers. is_ok-new_connected _))) in
      ground (
        arith,
        built,
        is_ok-bearer_rules,
        is_ok-validate-sm c,
        is_ok-new_client w.producer_library.x509_key_pair c.sm,
      )
