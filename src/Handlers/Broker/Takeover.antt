-- ===== src/Handlers/Broker/Takeover.antt =====
-- OnCreate of broker_handler.go, and the brokers of the platform that it touches.
use service_broker_proxy.Prelude.{
  String, ◌≡◌, refl, Bool, true, false, Option, none, some, [], ◌∷◌, arith, Bool-cases, inl, inr,
  if◌then◌else◌,
}
use service_broker_proxy.Types.{
  takeover_disabled, url_conflict, ServiceBroker, SmBroker, Notification, created,
}
use service_broker_proxy.Exec.{Log, Result, ok, raise, ◌>>=◌}
use service_broker_proxy.Exec.Calls.{
  Call, get_broker_by_name, create_broker, update_broker, delete_broker, fetch,
}
use service_broker_proxy.Exec.Keeps.{Keeps, Keeps-raise, Keeps-bind, keeps_rules}
use service_broker_proxy.Clients
use service_broker_proxy.Clients.{Env}
use service_broker_proxy.Handlers.Payload.{BrokerPayload, unmarshal_payload}
use service_broker_proxy.Handlers.Broker.{BrokerHandler, Login, login, should_be_taken_over}
use service_broker_proxy.Handlers.Broker.Create.{
  create_proxy, update_taken_over, take_over, create_or_take_over, create_for, on_create,
}

module _ (env : Env) (h : BrokerHandler) (b : SmBroker) where
  -- The broker of the platform that is taken over has the name and the URL of the new one.
  abbrev pub IsTwin : Option ServiceBroker → String → Type 0
  IsTwin none guid = ⊥
  IsTwin (some x) guid = (x.guid ≡ guid) × (should_be_taken_over x b ≡ true)

  abbrev pub IsMissing : Option ServiceBroker → Type 0
  IsMissing none = Unit
  IsMissing (some x) = ⊥

  -- What the last look-up by name returned, for a takeover and for a creation.
  abbrev pub TwinFound : String → Log → Type 0
  TwinFound guid [] = ⊥
  TwinFound guid (get_broker_by_name name ∷ s) = IsTwin (env.get_broker_by_name s name).0 guid
  TwinFound guid (c ∷ s) = TwinFound guid s

  abbrev pub NoneFound : Log → Type 0
  NoneFound [] = ⊥
  NoneFound (get_broker_by_name name ∷ s) = IsMissing (env.get_broker_by_name s name).0
  NoneFound (c ∷ s) = NoneFound s

  abbrev pub CreationCall : Call → Log → Type 0
  CreationCall (update_broker r) s = (h.takeover_enabled ≡ true) × TwinFound r.guid s
  CreationCall (create_broker r) s = NoneFound s
  CreationCall (delete_broker r) s = ⊥
  CreationCall (fetch r) s = ⊥
  CreationCall _ s = Unit

  abbrev pub AreCreations : Log → Type 0
  AreCreations [] = Unit
  AreCreations (c ∷ s) = CreationCall c s × AreCreations s

  abbrev Missing : Log → Type 0
  Missing s = NoneFound s × AreCreations s

  abbrev Twin : String → Log → Type 0
  Twin guid s = TwinFound guid s × AreCreations s

  create_proxy-Keeps : (l : Login) → Keeps Missing (create_proxy env h b l)
  unfolding create_proxy ◌>>=◌
  create_proxy-Keeps l = record { at = λ s p. ground arith }

  login-Missing : (n : String) → Keeps Missing (login env h b.id n)
  unfolding login ◌>>=◌
  login-Missing n = record { at = λ s p. ground arith }

  login-Twin : (guid n : String) → Keeps (Twin guid) (login env h b.id n)
  unfolding login ◌>>=◌
  login-Twin guid n = record { at = λ s p. ground arith }

  update_taken_over-Keeps :
      (l : Login) (x : ServiceBroker)
      → h.takeover_enabled ≡ true
      → Keeps (Twin x.guid) (update_taken_over env h b l x)
  unfolding update_taken_over ◌>>=◌
  update_taken_over-Keeps l x e = record { at = λ s p. ground arith }

  login-Creations : (n : String) → Keeps AreCreations (login env h b.id n)
  unfolding login ◌>>=◌
  login-Creations n = record { at = λ s p. ground arith }

  create-Missing :
      (n : String) → Keeps Missing (login env h b.id n >>= λ l. create_or_take_over env h b l none)
  unfolding create_or_take_over
  create-Missing n = search (keeps_rules, login-Missing, create_proxy-Keeps)

  take_over-Twin :
      (enabled : Bool) (x : ServiceBroker) (l : Login)
      → h.takeover_enabled ≡ enabled
      → Keeps
          (Twin x.guid)
          (if enabled then update_taken_over env h b l x else raise takeover_disabled)
  take_over-Twin true x l e = update_taken_over-Keeps l x e
  take_over-Twin false x l e = Keeps-raise takeover_disabled

  take_over_log :
      (x : ServiceBroker) (n : String) (s : Log)
      → (should_be_taken_over x b ≡ true → TwinFound x.guid s)
      → AreCreations s
      → AreCreations ((login env h b.id n >>= λ l. create_or_take_over env h b l (some x)) s).1
  unfolding create_or_take_over take_over
  take_over_log x n s f p = elim (Bool-cases (should_be_taken_over x b)) [
    | inl e ↦
        rw e
          ((Keeps-bind {P = Twin x.guid} _ _ (login-Twin x.guid n)
              (λ l. take_over-Twin h.takeover_enabled x l refl)).at
            s (f e, p)).1
    | inr e ↦ rw e (
        (Keeps-bind {P = AreCreations} _ (λ l. raise url_conflict) (login-Creations n)
            (λ l. Keeps-raise url_conflict)).at
          s p)
  ]

  create_found :
      (found : Option ServiceBroker) (n name : String) (s : Log)
      → (env.get_broker_by_name s name).0 ≡ found
      → AreCreations s
      → AreCreations
          ((login env h b.id n >>= λ l. create_or_take_over env h b l found)
            (get_broker_by_name name ∷ s)).1
  create_found none n name s i p = ((create-Missing n).at _ (rw i tt, (tt, p))).1
  create_found (some x) n name s i p = take_over_log x n _ (λ e. rw i (refl, e)) (tt, p)

  look_up_create :
      (n name : String)
      → Keeps AreCreations (
          Clients.get_broker_by_name env name >>= λ found.
          login env h b.id n >>= λ l. create_or_take_over env h b l found.0)
  unfolding Clients.get_broker_by_name ◌>>=◌
  look_up_create n name = record { at = λ s p. create_found _ n name s refl p }

  create_for-Creations : (n : Notification) → Keeps AreCreations (create_for env h n b)
  unfolding create_for
  create_for-Creations n = search (keeps_rules, look_up_create)

  -- For a payload whose new broker is `b`, the handler of a creation keeps the invariant: it updates a
  -- broker of the platform only if takeover is enabled and the look-up just found that broker with
  -- the name and URL of `b`; it creates one only if the look-up found none; and it deletes and
  -- refetches nothing.
  pub on_create-AreCreations :
      (unmarshal : String → Result BrokerPayload) (n : Notification) (p : BrokerPayload)
      → unmarshal_payload unmarshal created n.payload ≡ ok p
      → p.new_details.resource ≡ some b
      → Keeps AreCreations (on_create env h unmarshal n)
  unfolding on_create ◌>>=◌
  on_create-AreCreations unmarshal n p e r = record {
    at = λ s c. rw (e, r) ((create_for-Creations n).at s c);
  }
