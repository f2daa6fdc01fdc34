-- ===== src/Clients.antt =====
-- The interfaces that the proxy is written against: platform.BrokerClient, platform.VisibilityClient,
-- platform.CatalogFetcher, platform.Caching (pkg/platform) and sm.Client (pkg/sm/client.go), with the
-- generation of credentials. What implements them is not part of this repository, or is reached over
-- HTTP, so their answers are a parameter: any functions of the calls made before and the arguments.
pub mod Credentials
pub mod Confirmed
pub mod Plain
pub mod Sparing
pub mod Traced
use service_broker_proxy.Prelude.{ℕ, String, Bool, Option, List}
use service_broker_proxy.Types.{
  Error, ServiceBroker, CreateRequest, UpdateRequest, DeleteRequest, Visibility,
  ModifyPlanAccessRequest, Credential, SmBroker, SmVisibility, ServicePlan, ServiceOffering,
}
use service_broker_proxy.Exec.{Log, Result, ok, Exec, perform}
use service_broker_proxy.Exec.Calls.{Call}

pub record Env : Type 0 where
  -- A client that returns no error returns a broker that is not nil, except `GetBrokerByName`.
  pub get_brokers : Log → Result (List ServiceBroker)
  pub get_broker_by_name : Log → String → Option ServiceBroker × Option Error
  pub create_broker : Log → CreateRequest → Result ServiceBroker
  pub update_broker : Log → UpdateRequest → Result ServiceBroker
  pub delete_broker : Log → DeleteRequest → Result (Unit {0})
  pub fetch : Log → UpdateRequest → Result (Unit {0})
  pub reset_cache : Log → Result (Unit {0})
  pub reset_broker : Log → ServiceBroker → Bool → Result (Unit {0})
  pub get_visibilities_by_brokers : Log → List String → Result (List Visibility)
  pub enable_access_for_plan : Log → ModifyPlanAccessRequest → Result (Unit {0})
  pub disable_access_for_plan : Log → ModifyPlanAccessRequest → Result (Unit {0})
  pub get_sm_brokers : Log → Result (List SmBroker)
  pub get_sm_visibilities : Log → Option (List String) → Result (List SmVisibility)
  pub get_sm_plans : Log → Result (List ServicePlan)
  pub get_sm_service_offerings : Log → Result (List ServiceOffering)
  pub put_credentials : Log → Credential → Bool → Result Credential
  pub activate_credentials : Log → String → Result (Unit {0})
  -- util.GenerateCredential of the Service Manager, bcrypt.GenerateFromPassword
  pub generate_credential : Log → Result String
  pub generate_from_password : Log → String → Result String
  -- uuid.NewV4
  pub new_uuid : Log → Result String
  -- The choice of the Go scheduler in a loop whose tasks share the loop variable: for each task, how
  -- many rounds the loop has gone on when the task reads the variable.
  pub loop_lags : Log → List ℕ
  -- slice.StringsAnyEquals of the Service Manager
  pub strings_any_equals : List String → String → Bool

module _ (env : Env) where
  unfoldable pub get_brokers : Exec (List ServiceBroker)
  get_brokers = perform Call.get_brokers env.get_brokers

  unfoldable pub get_broker_by_name : String → Exec (Option ServiceBroker × Option Error)
  get_broker_by_name name =
      perform (Call.get_broker_by_name name) (λ s. ok (env.get_broker_by_name s name))

  unfoldable pub create_broker : CreateRequest → Exec ServiceBroker
  create_broker r = perform (Call.create_broker r) (λ s. env.create_broker s r)

  unfoldable pub update_broker : UpdateRequest → Exec ServiceBroker
  update_broker r = perform (Call.update_broker r) (λ s. env.update_broker s r)

  unfoldable pub delete_broker : DeleteRequest → Exec (Unit {0})
  delete_broker r = perform (Call.delete_broker r) (λ s. env.delete_broker s r)

  unfoldable pub fetch : UpdateRequest → Exec (Unit {0})
  fetch r = perform (Call.fetch r) (λ s. env.fetch s r)

  unfoldable pub reset_cache : Exec (Unit {0})
  reset_cache = perform Call.reset_cache env.reset_cache

  unfoldable pub reset_broker : ServiceBroker → Bool → Exec (Unit {0})
  reset_broker b deleted = perform (Call.reset_broker b deleted) (λ s. env.reset_broker s b deleted)

  unfoldable pub get_visibilities_by_brokers : List String → Exec (List Visibility)
  get_visibilities_by_brokers names =
      perform (Call.get_visibilities_by_brokers names)
        (λ s. env.get_visibilities_by_brokers s names)

  unfoldable pub enable_access_for_plan : ModifyPlanAccessRequest → Exec (Unit {0})
  enable_access_for_plan r =
      perform (Call.enable_access_for_plan r) (λ s. env.enable_access_for_plan s r)

  unfoldable pub disable_access_for_plan : ModifyPlanAccessRequest → Exec (Unit {0})
  disable_access_for_plan r =
      perform (Call.disable_access_for_plan r) (λ s. env.disable_access_for_plan s r)

  unfoldable pub get_sm_brokers : Exec (List SmBroker)
  get_sm_brokers = perform Call.get_sm_brokers env.get_sm_brokers

  unfoldable pub get_sm_visibilities : Option (List String) → Exec (List SmVisibility)
  get_sm_visibilities ids =
      perform (Call.get_sm_visibilities ids) (λ s. env.get_sm_visibilities s ids)

  unfoldable pub get_sm_plans : Exec (List ServicePlan)
  get_sm_plans = perform Call.get_sm_plans env.get_sm_plans

  unfoldable pub get_sm_service_offerings : Exec (List ServiceOffering)
  get_sm_service_offerings = perform Call.get_sm_service_offerings env.get_sm_service_offerings

  unfoldable pub put_credentials : Credential → Bool → Exec Credential
  put_credentials c force =
      perform (Call.put_credentials c force) (λ s. env.put_credentials s c force)

  unfoldable pub activate_credentials : String → Exec (Unit {0})
  activate_credentials id =
      perform (Call.activate_credentials id) (λ s. env.activate_credentials s id)

  unfoldable pub generate_credential : Exec String
  generate_credential = perform Call.generate_credential env.generate_credential

  unfoldable pub generate_from_password : String → Exec String
  generate_from_password p =
      perform (Call.generate_from_password p) (λ s. env.generate_from_password s p)

  unfoldable pub new_uuid : Exec String
  new_uuid = perform Call.new_uuid env.new_uuid
