-- ===== src/Types.antt =====
-- The data that the proxy exchanges: the requests and responses of pkg/platform, and of the Service
-- Manager's types (a library of its own) the fields that the proxy reads and writes.
use service_broker_proxy.Prelude.Int.{ℤ}
use service_broker_proxy.Prelude.{String, Bool, List}
use service_broker_proxy.Prelude.Dict.{Dict}

-- Why an operation stopped. The first two are the sentinel errors of pkg/sm/client.go and the third is
-- that of the producer; the handlers' early returns are named by what they log. `nil_pointer` and `slice_out_of_range`
-- are panics. All other errors carry a text.
pub data Error : Type 0 where
  conflicting_credentials credentials_not_found last_notification_gone : Error
  blacklisted broker_missing not_taken_over takeover_disabled url_conflict : Error
  no_catalog_fetcher no_visibility_client context_done nil_pointer slice_out_of_range : Error
  failed : String → Error

-- platform.ServiceBroker
pub record ServiceBroker : Type 0 where
  pub guid : String
  pub name : String
  pub broker_url : String

-- platform.CreateServiceBrokerRequest
pub record CreateRequest : Type 0 where
  pub id : String
  pub name : String
  pub broker_url : String
  pub username : String
  pub password : String

-- platform.UpdateServiceBrokerRequest
pub record UpdateRequest : Type 0 where
  pub id : String
  pub guid : String
  pub name : String
  pub broker_url : String
  pub username : String
  pub password : String

-- platform.DeleteServiceBrokerRequest
pub record DeleteRequest : Type 0 where
  pub id : String
  pub guid : String
  pub name : String

-- types.Labels: a key has a list of values
abbrev pub Labels : Type 0
Labels = Dict (List String)

-- platform.Visibility
pub record Visibility : Type 0 where
  pub is_public : Bool
  pub catalog_plan_id : String
  pub platform_broker_name : String
  pub labels : Dict String

-- platform.ModifyPlanAccessRequest
pub record ModifyPlanAccessRequest : Type 0 where
  pub broker_name : String
  pub catalog_plan_id : String
  pub labels : Labels

-- types.BrokerPlatformCredential
pub record Credential : Type 0 where
  pub id : String
  pub username : String
  pub password_hash : String
  pub broker_id : String
  pub notification_id : String

-- types.ServiceBroker
pub record SmBroker : Type 0 where
  pub id : String
  pub name : String
  pub broker_url : String

-- types.Visibility
pub record SmVisibility : Type 0 where
  pub id : String
  pub platform_id : String
  pub service_plan_id : String
  pub labels : Labels

-- types.ServicePlan
pub record ServicePlan : Type 0 where
  pub id : String
  pub catalog_id : String
  pub service_offering_id : String

-- types.NotificationOperation, a text: CREATED, MODIFIED, DELETED, or another one
pub data Operation : Type 0 where
  created modified deleted : Operation
  other_operation : String → Operation

-- types.Notification; `resource` names the kind of object, and `payload` is its JSON text
pub record Notification : Type 0 where
  pub id : String
  pub resource : String
  pub operation : Operation
  pub correlation_id : String
  pub revision : ℤ
  pub payload : String

-- types.LabelChange
pub data LabelOperation : Type 0 where
  add_label add_label_values remove_label remove_label_values : LabelOperation
  -- any other text
  unknown_operation : String → LabelOperation

pub record LabelChange : Type 0 where
  pub operation : LabelOperation
  pub key : String
  pub change_values : List String

-- types.ServiceOffering
pub record ServiceOffering : Type 0 where
  pub id : String
  pub broker_id : String
