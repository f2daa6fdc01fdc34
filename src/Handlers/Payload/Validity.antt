-- ===== src/Handlers/Payload/Validity.antt =====
-- What a payload that passed unmarshalPayload holds.
use service_broker_proxy.Prelude.{String, ◌≡◌, ◌≢◌, refl, Option, none, some, arith, eq_iff}
use service_broker_proxy.Types.{SmBroker, Operation, created, modified, deleted, other_operation}
use service_broker_proxy.Exec.{Result, ok, err}
use service_broker_proxy.Handlers.Payload.{
  BrokerPayload, validate_resource, validate_details, validate_payload, unmarshal_payload,
}

-- The resource is there, and its id, URL and name are not empty.
abbrev pub IsComplete : Option SmBroker → Type 0
IsComplete none = ⊥
IsComplete (some b) = (b.id ≢ "") × (b.broker_url ≢ "") × (b.name ≢ "")

-- What a handler reads through pointers, for each operation.
abbrev pub HasResources : Operation → BrokerPayload → Type 0
HasResources created p = IsComplete p.new_details.resource
HasResources modified p = IsComplete p.old_details.resource × IsComplete p.new_details.resource
HasResources deleted p = IsComplete p.old_details.resource
HasResources (other_operation o) p = Unit

validate_resource-IsComplete :
    (o : Option SmBroker) (a : Result (Unit {0})) → validate_resource o a ≡ ok tt → IsComplete o
unfolding validate_resource
validate_resource-IsComplete none a h = ground arith
validate_resource-IsComplete (some b) a h =
    ground (arith, eq_iff b.id "", eq_iff b.broker_url "", eq_iff b.name "")

validate_payload_of_ok :
    (unmarshal : String → Result BrokerPayload) (op : Operation) (text : String) {p : BrokerPayload}
    → unmarshal_payload unmarshal op text ≡ ok p
    → validate_payload p op ≡ ok tt
unfolding unmarshal_payload
validate_payload_of_ok unmarshal op text h = ground arith

both_ok :
    (first second : Result (Unit {0}))
    → ◌≡◌ {A = Result (Unit {0})} (elim first [ err e ↦ err e | ok u ↦ second ]) (ok tt)
    → (first ≡ ok tt) × (second ≡ ok tt)
both_ok (ok u) second h = (refl, h)
both_ok (err e) second h = cc

validate_payload-HasResources :
    (op : Operation) (p : BrokerPayload) → validate_payload p op ≡ ok tt → HasResources op p
unfolding validate_payload validate_details
validate_payload-HasResources created p h = validate_resource-IsComplete _ _ h
validate_payload-HasResources modified p h =
    let (old, new) = both_ok (validate_details p.old_details) (validate_details p.new_details) h in
    (
      validate_resource-IsComplete p.old_details.resource p.old_details.additional_valid old,
      validate_resource-IsComplete p.new_details.resource p.new_details.additional_valid new,
    )
validate_payload-HasResources deleted p h = validate_resource-IsComplete _ _ h
validate_payload-HasResources (other_operation o) p h = tt

-- A payload that unmarshalPayload returns has every resource that the handler of the operation
-- dereferences, with an id, a URL and a name that are not empty.
pub unmarshal_payload-HasResources :
    (unmarshal : String → Result BrokerPayload) (op : Operation) (text : String) {p : BrokerPayload}
    → unmarshal_payload unmarshal op text ≡ ok p
    → HasResources op p
unmarshal_payload-HasResources unmarshal op text {p} h =
    validate_payload-HasResources op p (validate_payload_of_ok unmarshal op text h)
