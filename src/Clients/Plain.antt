-- ===== src/Clients/Plain.antt =====
-- The calls that neither change a broker nor handle credentials, and what they keep.
use service_broker_proxy.Prelude.{String, Option, List, ◌∷◌}
use service_broker_proxy.Types.{ModifyPlanAccessRequest}
use service_broker_proxy.Exec.{Log}
use service_broker_proxy.Exec.Calls.{
  Call, create_broker, update_broker, delete_broker, fetch, reset_broker, put_credentials,
  activate_credentials, generate_credential, generate_from_password,
}
use service_broker_proxy.Exec.Keeps.{Keeps, Keeps-perform}
use service_broker_proxy.Clients
use service_broker_proxy.Clients.{Env}

abbrev pub IsPlain : Call → Type 0
IsPlain (create_broker r) = ⊥
IsPlain (update_broker r) = ⊥
IsPlain (delete_broker r) = ⊥
IsPlain (fetch r) = ⊥
IsPlain (reset_broker b was_deleted) = ⊥
IsPlain (put_credentials c force) = ⊥
IsPlain (activate_credentials id) = ⊥
IsPlain generate_credential = ⊥
IsPlain (generate_from_password p) = ⊥
IsPlain _ = Unit

-- Every plain call keeps the predicate.
pub record KeepsPlain (P : Log → Type 0) : Type 0 where
  pub keep : (c : Call) → IsPlain c → (s : Log) → P s → P (c ∷ s)

module _ {P : Log → Type 0} (k : KeepsPlain P) (env : Env) where
  pub get_brokers-Keeps : Keeps P (Clients.get_brokers env)
  unfolding Clients.get_brokers
  get_brokers-Keeps = Keeps-perform _ _ (k.keep _ tt)

  pub get_broker_by_name-Keeps : (name : String) → Keeps P (Clients.get_broker_by_name env name)
  unfolding Clients.get_broker_by_name
  get_broker_by_name-Keeps name = Keeps-perform _ _ (k.keep _ tt)

  pub reset_cache-Keeps : Keeps P (Clients.reset_cache env)
  unfolding Clients.reset_cache
  reset_cache-Keeps = Keeps-perform _ _ (k.keep _ tt)

  pub get_visibilities_by_brokers-Keeps :
      (names : List String) → Keeps P (Clients.get_visibilities_by_brokers env names)
  unfolding Clients.get_visibilities_by_brokers
  get_visibilities_by_brokers-Keeps names = Keeps-perform _ _ (k.keep _ tt)

  pub enable_access_for_plan-Keeps :
      (r : ModifyPlanAccessRequest) → Keeps P (Clients.enable_access_for_plan env r)
  unfolding Clients.enable_access_for_plan
  enable_access_for_plan-Keeps r = Keeps-perform _ _ (k.keep _ tt)

  pub disable_access_for_plan-Keeps :
      (r : ModifyPlanAccessRequest) → Keeps P (Clients.disable_access_for_plan env r)
  unfolding Clients.disable_access_for_plan
  disable_access_for_plan-Keeps r = Keeps-perform _ _ (k.keep _ tt)

  pub get_sm_brokers-Keeps : Keeps P (Clients.get_sm_brokers env)
  unfolding Clients.get_sm_brokers
  get_sm_brokers-Keeps = Keeps-perform _ _ (k.keep _ tt)

  pub get_sm_visibilities-Keeps :
      (ids : Option (List String)) → Keeps P (Clients.get_sm_visibilities env ids)
  unfolding Clients.get_sm_visibilities
  get_sm_visibilities-Keeps ids = Keeps-perform _ _ (k.keep _ tt)

  pub get_sm_plans-Keeps : Keeps P (Clients.get_sm_plans env)
  unfolding Clients.get_sm_plans
  get_sm_plans-Keeps = Keeps-perform _ _ (k.keep _ tt)

  pub get_sm_service_offerings-Keeps : Keeps P (Clients.get_sm_service_offerings env)
  unfolding Clients.get_sm_service_offerings
  get_sm_service_offerings-Keeps = Keeps-perform _ _ (k.keep _ tt)

  pub new_uuid-Keeps : Keeps P (Clients.new_uuid env)
  unfolding Clients.new_uuid
  new_uuid-Keeps = Keeps-perform _ _ (k.keep _ tt)

pub ruleset plain_calls = (
  get_brokers-Keeps, get_broker_by_name-Keeps, reset_cache-Keeps, get_visibilities_by_brokers-Keeps,
  enable_access_for_plan-Keeps, disable_access_for_plan-Keeps, get_sm_brokers-Keeps,
  get_sm_visibilities-Keeps, get_sm_plans-Keeps, get_sm_service_offerings-Keeps, new_uuid-Keeps,
)
