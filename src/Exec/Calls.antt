-- ===== src/Exec/Calls.antt =====
-- The calls that the proxy makes on what it does not implement.
use service_broker_proxy.Prelude.{String, Bool, Option, List}
use service_broker_proxy.Types.{
  ServiceBroker, CreateRequest, UpdateRequest, DeleteRequest, ModifyPlanAccessRequest, Credential,
}

pub data Call : Type 0 where
  -- platform.BrokerClient, platform.CatalogFetcher, platform.Caching
  get_brokers : Call
  get_broker_by_name : String → Call
  create_broker : CreateRequest → Call
  update_broker : UpdateRequest → Call
  delete_broker : DeleteRequest → Call
  fetch : UpdateRequest → Call
  reset_cache : Call
  reset_broker : ServiceBroker → Bool → Call
  -- platform.VisibilityClient
  get_visibilities_by_brokers : List String → Call
  enable_access_for_plan : ModifyPlanAccessRequest → Call
  disable_access_for_plan : ModifyPlanAccessRequest → Call
  -- sm.Client
  get_sm_brokers : Call
  get_sm_visibilities : Option (List String) → Call
  get_sm_plans : Call
  get_sm_service_offerings : Call
  put_credentials : Credential → Bool → Call
  activate_credentials : String → Call
  -- credentials of the Service Manager's util package, and bcrypt
  generate_credential : Call
  generate_from_password : String → Call
  -- uuid.NewV4
  new_uuid : Call
