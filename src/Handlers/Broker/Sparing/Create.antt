-- ===== src/Handlers/Broker/Sparing/Create.antt =====
-- The brokers of the platform that OnCreate of broker_handler.go changes.
use service_broker_proxy.Prelude.{
  String, ◌≡◌, refl, true, false, Option, none, some, ◌∷◌, arith, Bool-cases, inl, inr,
}
use service_broker_proxy.Types.{ServiceBroker, SmBroker, Notification}
use service_broker_proxy.Exec.{Log, Result, ◌>>=◌}
use service_broker_proxy.Exec.Calls.{get_broker_by_name}
use service_broker_proxy.Exec.Keeps.{Keeps, Keeps-bind, keeps_rules}
use service_broker_proxy.Clients
use service_broker_proxy.Clients.{Env}
use service_broker_proxy.Clients.Sparing.{Reported, IsSparing}
use service_broker_proxy.Handlers.Payload.{BrokerPayload}
use service_broker_proxy.Handlers.Broker.{BrokerHandler, Login, login}
use service_broker_proxy.Handlers.Broker.Create.{
  create_proxy, update_taken_over, take_over, create_or_take_over, create_for, on_create,
}

module _ (env : Env) (h : BrokerHandler) (IsProxy MayUpdate : ServiceBroker → Type 0)
    (taken : (x : ServiceBroker) → h.takeover_enabled ≡ true → MayUpdate x) where
  abbrev Inv : Log → Type 0
  Inv = IsSparing env IsProxy MayUpdate

  abbrev Updatable : ServiceBroker → Log → Type 0
  Updatable x s = Reported env MayUpdate x.guid s × Inv s

  login-Updatable :
      (x : ServiceBroker) (broker_id notification_id : String)
      → Keeps (Updatable x) (login env h broker_id notification_id)
  unfolding login ◌>>=◌
  login-Updatable x broker_id notification_id = record { at = λ s p. ground arith }

  login-Inv :
      (broker_id notification_id : String) → Keeps Inv (login env h broker_id notification_id)
  unfolding login ◌>>=◌
  login-Inv broker_id notification_id = record { at = λ s p. ground arith }

  update_taken_over-Updatable :
      (b : SmBroker) (l : Login) (x : ServiceBroker)
      → Keeps (Updatable x) (update_taken_over env h b l x)
  unfolding update_taken_over ◌>>=◌
  update_taken_over-Updatable b l x = record { at = λ s p. ground arith }

  create_proxy-Inv : (b : SmBroker) (l : Login) → Keeps Inv (create_proxy env h b l)
  unfolding create_proxy ◌>>=◌
  create_proxy-Inv b l = record { at = λ s p. ground arith }

  take_over-Updatable :
      (b : SmBroker) (l : Login) (x : ServiceBroker) → Keeps (Updatable x) (take_over env h b l x)
  unfolding take_over
  take_over-Updatable b l x = search (keeps_rules, update_taken_over-Updatable)

  take_over-Inv :
      (b : SmBroker) (l : Login) (x : ServiceBroker)
      → h.takeover_enabled ≡ false
      → Keeps Inv (take_over env h b l x)
  unfolding take_over
  take_over-Inv b l x e = rw e (search keeps_rules)

  create_found :
      (b : SmBroker) (n name : String) (answer : Option ServiceBroker) (s : Log)
      → (env.get_broker_by_name s name).0 ≡ answer
      → Inv s
      → Inv
          ((login env h b.id n >>= λ l. create_or_take_over env h b l answer)
            (get_broker_by_name name ∷ s)).1
  unfolding create_or_take_over
  create_found b n name none s i p =
      (Keeps-bind {P = Inv} _ _ (login-Inv b.id n) (create_proxy-Inv b)).at _ (tt, p)
  create_found b n name (some x) s i p = elim (Bool-cases h.takeover_enabled) [
    | inl e ↦
        ((Keeps-bind {P = Updatable x} _ _ (login-Updatable x b.id n)
            (λ l. take_over-Updatable b l x)).at
          _ (inl (rw i (refl, taken x e)), (tt, p))).1
    | inr e ↦
        (Keeps-bind {P = Inv} _ _ (login-Inv b.id n) (λ l. take_over-Inv b l x e)).at _ (tt, p)
  ]

  look_up_create :
      (b : SmBroker) (n name : String)
      → Keeps Inv (
          Clients.get_broker_by_name env name >>= λ found.
          login env h b.id n >>= λ l. create_or_take_over env h b l found.0)
  unfolding Clients.get_broker_by_name ◌>>=◌
  look_up_create b n name = record { at = λ s p. create_found b n name _ s refl p }

  create_for-Inv : (n : Notification) (b : SmBroker) → Keeps Inv (create_for env h n b)
  unfolding create_for
  create_for-Inv n b = search (keeps_rules, look_up_create)

  pub on_create-IsSparing :
      (unmarshal : String → Result BrokerPayload) (n : Notification)
      → Keeps (IsSparing env IsProxy MayUpdate) (on_create env h unmarshal n)
  unfolding on_create
  on_create-IsSparing unmarshal n = search (keeps_rules, create_for-Inv)
