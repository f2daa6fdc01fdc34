-- ===== src/Handlers/Visibility.antt =====
-- VisibilityResourceNotificationsHandler of visibilities_handler.go: the payload and its validation,
-- and the calls for one plan. The three handlers are in the module below.
pub mod Events
pub mod Plain
pub mod Recovery
pub mod PublicUpdate
use service_broker_proxy.Prelude.{
  String, Bool, true, false, ◌&&◌, ◌||◌, not, Option, none, some, List, [], ◌∷◌, ◌==◌,
  if◌then◌else◌,
}
use service_broker_proxy.Prelude.Dict.{Dict}
use service_broker_proxy.Types.{
  SmVisibility, Labels, LabelChange, ModifyPlanAccessRequest, Operation, created, modified, deleted,
  other_operation, failed,
}
use service_broker_proxy.Exec.{Result, ok, err, Exec, pure}
use service_broker_proxy.Clients
use service_broker_proxy.Clients.{Env}
use service_broker_proxy.Utils.{broker_proxy_name}

-- interceptors.VisibilityAdditional of the Service Manager, with the result of its `Validate()`
pub record VisibilityAdditional : Type 0 where
  pub broker_id : String
  pub broker_name : String
  pub catalog_id : String
  pub is_valid : Result (Unit {0})

-- visibilityWithAdditionalDetails
pub record VisibilityDetails : Type 0 where
  pub resource : Option SmVisibility
  pub additional : VisibilityAdditional

-- visibilityPayload
pub record VisibilityPayload : Type 0 where
  pub new_details : VisibilityDetails
  pub old_details : VisibilityDetails
  pub label_changes : List LabelChange

validate_resource : Option SmVisibility → Result (Unit {0}) → Result (Unit {0})
validate_resource none additional = err (failed "resource in notification payload cannot be nil")
validate_resource (some v) additional =
    if v.id == ""
    then err (failed "visibility id cannot be empty")
    else if v.service_plan_id == ""
    then err (failed "visibility service plan id cannot be empty")
    else additional

-- visibilityWithAdditionalDetails.Validate
unfoldable pub validate_details : VisibilityDetails → Result (Unit {0})
unfolding validate_resource
validate_details d = validate_resource d.resource d.additional.is_valid

-- visibilityPayload.Validate
unfoldable pub validate_payload : VisibilityPayload → Operation → Result (Unit {0})
unfolding validate_details
validate_payload p created = validate_details p.new_details
validate_payload p modified = elim (validate_details p.old_details) [
  | err e ↦ err e
  | ok u ↦ validate_details p.new_details
]
validate_payload p deleted = validate_details p.old_details
validate_payload p (other_operation o) = ok tt

-- json.Unmarshal, then Validate
unfoldable pub unmarshal_payload :
    (String → Result VisibilityPayload) → Operation → String → Result VisibilityPayload
unfolding validate_payload
unmarshal_payload unmarshal op payload = elim (unmarshal payload) [
  | err e ↦ err e
  | ok p ↦ elim (validate_payload p op) [ err e ↦ err e | ok u ↦ ok p ]
]

-- `has_client` says whether the platform gave a VisibilityClient.
pub record VisibilityHandler : Type 0 where
  pub has_client : Bool
  pub name_provider : Option (String → String)
  pub proxy_prefix : String
  pub broker_blacklist : List String

abbrev pub platform_broker_name : VisibilityHandler → VisibilityAdditional → String
platform_broker_name h a =
    broker_proxy_name h.name_provider a.broker_name a.broker_id h.proxy_prefix

abbrev pub access_request : String → String → Labels → ModifyPlanAccessRequest
access_request name catalog_id labels = record {
  broker_name = name;
  catalog_plan_id = catalog_id;
  labels = labels;
}

abbrev pub is_empty {ℓ} : {V : Type ℓ} → Dict V → Bool
is_empty [] = true
is_empty (x ∷ xs) = false

-- The test of enableServiceAccess and disableServiceAccess.
unfoldable pub needs_access_change : Labels → SmVisibility → Bool
needs_access_change labels v =
    (is_empty labels && v.platform_id == "") || (not (is_empty labels) && not (v.platform_id == ""))

module _ (env : Env) where
  -- enableAccessForPlan
  abbrev pub enable_access_for_plan : String → String → Labels → Exec (Unit {0})
  enable_access_for_plan name catalog_id labels =
      Clients.enable_access_for_plan env (access_request name catalog_id labels)

  -- disableAccessForPlan
  abbrev pub disable_access_for_plan : String → String → Labels → Exec (Unit {0})
  disable_access_for_plan name catalog_id labels =
      Clients.disable_access_for_plan env (access_request name catalog_id labels)

  unfoldable pub enable_service_access : Labels → SmVisibility → String → String → Exec (Unit {0})
  enable_service_access labels v catalog_id name =
      if needs_access_change labels v
      then enable_access_for_plan name catalog_id labels
      else pure tt

  unfoldable pub disable_service_access : Labels → SmVisibility → String → String → Exec (Unit {0})
  disable_service_access labels v catalog_id name =
      if needs_access_change labels v
      then disable_access_for_plan name catalog_id labels
      else pure tt
