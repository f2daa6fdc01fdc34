-- ===== src/Clients/Sparing.antt =====
-- The invariant of a log that the brokers it changes were reported by the platform before, as brokers
-- that may be changed.
use mathlib.Core.List.{Memᴰ}
use service_broker_proxy.Prelude.{String, ◌≡◌, ◌⊎◌, inr, Option, none, some, List, [], ◌∷◌}
use service_broker_proxy.Types.{ServiceBroker}
use service_broker_proxy.Exec.{Log, Result, ok, err}
use service_broker_proxy.Exec.Calls.{
  Call, get_brokers, get_broker_by_name, create_broker, update_broker, delete_broker, fetch,
  reset_cache, reset_broker, get_visibilities_by_brokers, enable_access_for_plan,
  disable_access_for_plan, get_sm_brokers, get_sm_visibilities, get_sm_plans,
  get_sm_service_offerings, put_credentials, activate_credentials, generate_credential,
  generate_from_password, new_uuid,
}
use service_broker_proxy.Clients.{Env}
use service_broker_proxy.Clients.Plain.{IsPlain, KeepsPlain}

-- An answer has a broker with the GUID and the property.
abbrev pub IsListed : (ServiceBroker → Type 0) → String → Result (List ServiceBroker) → Type 0
IsListed P guid (ok bs) = (b : ServiceBroker) × Memᴰ b bs × (b.guid ≡ guid) × P b
IsListed P guid (err e) = ⊥

abbrev pub IsFound : (ServiceBroker → Type 0) → String → Option ServiceBroker → Type 0
IsFound P guid none = ⊥
IsFound P guid (some b) = (b.guid ≡ guid) × P b

module _ (env : Env) where
  -- The platform answered one of the calls with such a broker.
  abbrev pub Reported : (ServiceBroker → Type 0) → String → Log → Type 0
  Reported P guid [] = ⊥
  Reported P guid (get_brokers ∷ s) = IsListed P guid (env.get_brokers s) ⊎ Reported P guid s
  Reported P guid (get_broker_by_name name ∷ s) =
      IsFound P guid (env.get_broker_by_name s name).0 ⊎ Reported P guid s
  Reported P guid (c ∷ s) = Reported P guid s

  pub Reported-later :
      (P : ServiceBroker → Type 0) (guid : String) (c : Call) (s : Log)
      → Reported P guid s
      → Reported P guid (c ∷ s)
  Reported-later P guid get_brokers s p = inr p
  Reported-later P guid (get_broker_by_name x) s p = inr p
  Reported-later P guid (create_broker x) s p = p
  Reported-later P guid (update_broker x) s p = p
  Reported-later P guid (delete_broker x) s p = p
  Reported-later P guid (fetch x) s p = p
  Reported-later P guid reset_cache s p = p
  Reported-later P guid (reset_broker x y) s p = p
  Reported-later P guid (get_visibilities_by_brokers x) s p = p
  Reported-later P guid (enable_access_for_plan x) s p = p
  Reported-later P guid (disable_access_for_plan x) s p = p
  Reported-later P guid get_sm_brokers s p = p
  Reported-later P guid (get_sm_visibilities x) s p = p
  Reported-later P guid get_sm_plans s p = p
  Reported-later P guid get_sm_service_offerings s p = p
  Reported-later P guid (put_credentials x y) s p = p
  Reported-later P guid (activate_credentials x) s p = p
  Reported-later P guid generate_credential s p = p
  Reported-later P guid (generate_from_password x) s p = p
  Reported-later P guid new_uuid s p = p

-- `IsProxy` brokers may be deleted and refetched, `MayUpdate` ones updated.
module _ (env : Env) (IsProxy MayUpdate : ServiceBroker → Type 0) where
  abbrev pub SparingCall : Call → Log → Type 0
  SparingCall (delete_broker r) s = Reported env IsProxy r.guid s
  SparingCall (update_broker r) s = Reported env MayUpdate r.guid s
  SparingCall (fetch r) s = Reported env IsProxy r.guid s
  SparingCall _ s = Unit

  abbrev pub IsSparing : Log → Type 0
  IsSparing [] = Unit
  IsSparing (c ∷ s) = SparingCall c s × IsSparing s

  keep_plain : (c : Call) → IsPlain c → (s : Log) → IsSparing s → IsSparing (c ∷ s)
  keep_plain get_brokers i s p = (tt, p)
  keep_plain (get_broker_by_name x) i s p = (tt, p)
  keep_plain (create_broker x) i s p = elim i [ ]
  keep_plain (update_broker x) i s p = elim i [ ]
  keep_plain (delete_broker x) i s p = elim i [ ]
  keep_plain (fetch x) i s p = elim i [ ]
  keep_plain reset_cache i s p = (tt, p)
  keep_plain (reset_broker x y) i s p = elim i [ ]
  keep_plain (get_visibilities_by_brokers x) i s p = (tt, p)
  keep_plain (enable_access_for_plan x) i s p = (tt, p)
  keep_plain (disable_access_for_plan x) i s p = (tt, p)
  keep_plain get_sm_brokers i s p = (tt, p)
  keep_plain (get_sm_visibilities x) i s p = (tt, p)
  keep_plain get_sm_plans i s p = (tt, p)
  keep_plain get_sm_service_offerings i s p = (tt, p)
  keep_plain (put_credentials x y) i s p = elim i [ ]
  keep_plain (activate_credentials x) i s p = elim i [ ]
  keep_plain generate_credential i s p = elim i [ ]
  keep_plain (generate_from_password x) i s p = elim i [ ]
  keep_plain new_uuid i s p = (tt, p)

  pub plain-IsSparing : KeepsPlain IsSparing
  plain-IsSparing = record { keep = keep_plain }
