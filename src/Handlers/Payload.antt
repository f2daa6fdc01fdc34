-- ===== src/Handlers/Payload.antt =====
-- The payloads of broker notifications and their validation, broker_handler.go. The JSON decoder is
-- a parameter of what uses it, and `additional_valid` is the result of `Additional.Validate()`, a
-- method of the Service Manager's library.
pub mod Validity
use service_broker_proxy.Prelude.{String, Option, none, some, ◌==◌, if◌then◌else◌}
use service_broker_proxy.Types.{
  SmBroker, Operation, created, modified, deleted, other_operation, failed,
}
use service_broker_proxy.Exec.{Result, ok, err}

-- brokerWithAdditionalDetails
pub record BrokerDetails : Type 0 where
  pub resource : Option SmBroker
  pub additional_valid : Result (Unit {0})

-- brokerPayload
pub record BrokerPayload : Type 0 where
  pub new_details : BrokerDetails
  pub old_details : BrokerDetails

unfoldable pub validate_resource : Option SmBroker → Result (Unit {0}) → Result (Unit {0})
validate_resource none additional = err (failed "resource in notification payload cannot be nil")
validate_resource (some b) additional =
    if b.id == ""
    then err (failed "broker ID cannot be empty")
    else if b.broker_url == ""
    then err (failed "broker URL cannot be empty")
    else if b.name == ""
    then err (failed "broker name cannot be empty")
    else additional

-- brokerWithAdditionalDetails.Validate
unfoldable pub validate_details : BrokerDetails → Result (Unit {0})
validate_details d = validate_resource d.resource d.additional_valid

-- brokerPayload.Validate
unfoldable pub validate_payload : BrokerPayload → Operation → Result (Unit {0})
validate_payload p created = validate_details p.new_details
validate_payload p modified = elim (validate_details p.old_details) [
  | err e ↦ err e
  | ok u ↦ validate_details p.new_details
]
validate_payload p deleted = validate_details p.old_details
validate_payload p (other_operation o) = ok tt

-- unmarshalPayload
unfoldable pub unmarshal_payload :
    (String → Result BrokerPayload) → Operation → String → Result BrokerPayload
unmarshal_payload unmarshal op payload = elim (unmarshal payload) [
  | err e ↦ err e
  | ok p ↦ elim (validate_payload p op) [ err e ↦ err e | ok u ↦ ok p ]
]
