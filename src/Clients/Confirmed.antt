-- ===== src/Clients/Confirmed.antt =====
-- The invariant of a log that ties an activation of credentials to what was done just before it.
use service_broker_proxy.Prelude.{String, ◌≡◌, [], ◌∷◌}
use service_broker_proxy.Types.{Credential}
use service_broker_proxy.Exec.{Log, Result, ok, err}
use service_broker_proxy.Exec.Calls.{
  get_brokers, get_broker_by_name, delete_broker, reset_cache, get_visibilities_by_brokers,
  enable_access_for_plan, disable_access_for_plan, get_sm_brokers, get_sm_visibilities,
  get_sm_plans, get_sm_service_offerings, generate_credential, new_uuid, Call, create_broker,
  update_broker, fetch, reset_broker, put_credentials, activate_credentials, generate_from_password,
}
use service_broker_proxy.Clients.Plain.{IsPlain, KeepsPlain}
use service_broker_proxy.Clients.{Env}

abbrev pub Succeeded {ℓ} : {A : Type ℓ} → Result A → Type 0
Succeeded (ok a) = Unit
Succeeded (err e) = ⊥

abbrev pub HasId : Result Credential → String → Type 0
HasId (ok c) id = c.id ≡ id
HasId (err e) id = ⊥

module _ (env : Env) where
  -- The last two calls stored the hash of `password` for the broker and the user name in the Service
  -- Manager, which answered with the credential `id`.
  abbrev pub Registered : String → String → String → String → Log → Type 0
  Registered id broker_id username password
        (put_credentials c force ∷ generate_from_password p ∷ s) =
      HasId (env.put_credentials (generate_from_password p ∷ s) c force) id
      × (c.broker_id ≡ broker_id)
      × (c.username ≡ username)
      × (p ≡ password)
      × (env.generate_from_password s p ≡ ok c.password_hash)
  Registered id broker_id username password _ = ⊥

  -- Up to resets of the cache, the last call made the platform use the registered credentials, and
  -- the platform accepted them.
  abbrev pub Accepted : String → Log → Type 0
  Accepted id (reset_broker b was_deleted ∷ s) = Accepted id s
  Accepted id (create_broker r ∷ s) =
      Succeeded (env.create_broker s r) × Registered id r.id r.username r.password s
  Accepted id (update_broker r ∷ s) =
      Succeeded (env.update_broker s r) × Registered id r.id r.username r.password s
  Accepted id (fetch r ∷ s) = Succeeded (env.fetch s r) × Registered id r.id r.username r.password s
  Accepted id _ = ⊥

  abbrev pub ConfirmedCall : Call → Log → Type 0
  ConfirmedCall (activate_credentials id) s = Accepted id s
  ConfirmedCall _ s = Unit

  -- Every activation in the log came after such a call.
  abbrev pub IsConfirmed : Log → Type 0
  IsConfirmed [] = Unit
  IsConfirmed (c ∷ s) = ConfirmedCall c s × IsConfirmed s

keep_plain :
    (env : Env) (c : Call) → IsPlain c → (s : Log) → IsConfirmed env s → IsConfirmed env (c ∷ s)
keep_plain env get_brokers i s p = (tt, p)
keep_plain env (get_broker_by_name x) i s p = (tt, p)
keep_plain env (create_broker x) i s p = elim i [ ]
keep_plain env (update_broker x) i s p = elim i [ ]
keep_plain env (delete_broker x) i s p = elim i [ ]
keep_plain env (fetch x) i s p = elim i [ ]
keep_plain env reset_cache i s p = (tt, p)
keep_plain env (reset_broker x y) i s p = elim i [ ]
keep_plain env (get_visibilities_by_brokers x) i s p = (tt, p)
keep_plain env (enable_access_for_plan x) i s p = (tt, p)
keep_plain env (disable_access_for_plan x) i s p = (tt, p)
keep_plain env get_sm_brokers i s p = (tt, p)
keep_plain env (get_sm_visibilities x) i s p = (tt, p)
keep_plain env get_sm_plans i s p = (tt, p)
keep_plain env get_sm_service_offerings i s p = (tt, p)
keep_plain env (put_credentials x y) i s p = elim i [ ]
keep_plain env (activate_credentials x) i s p = elim i [ ]
keep_plain env generate_credential i s p = elim i [ ]
keep_plain env (generate_from_password x) i s p = elim i [ ]
keep_plain env new_uuid i s p = (tt, p)

-- The calls that are no activation keep the invariant.
pub plain-IsConfirmed : (env : Env) → KeepsPlain (IsConfirmed env)
plain-IsConfirmed env = record { keep = keep_plain env }
