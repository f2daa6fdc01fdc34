-- ===== src/Notifications/Consumer.antt =====
-- consumer.go
use service_broker_proxy.Prelude.{String, Option, none, some, ◌==◌, if◌then◌else◌}
use service_broker_proxy.Prelude.Dict.{Dict, lookup}
use service_broker_proxy.Types.{
  Notification, Operation, created, modified, deleted, other_operation,
}
use service_broker_proxy.Exec.{Exec, pure}

-- ResourceNotificationHandler
pub record ResourceHandler : Type 0 where
  pub on_create : Notification → Exec (Unit {0})
  pub on_update : Notification → Exec (Unit {0})
  pub on_delete : Notification → Exec (Unit {0})

-- The correlation id under which Consume logs.
unfoldable pub correlation_id : Notification → String
correlation_id n = if n.correlation_id == "" then n.id else n.correlation_id

-- The switch of Consume.
unfoldable pub dispatch : ResourceHandler → Operation → Notification → Exec (Unit {0})
dispatch h created n = h.on_create n
dispatch h modified n = h.on_update n
dispatch h deleted n = h.on_delete n
dispatch h (other_operation o) n = pure tt

unfoldable pub consume_with : Option ResourceHandler → Notification → Exec (Unit {0})
unfolding dispatch
consume_with none n = pure tt
consume_with (some h) n = dispatch h n.operation n

-- Consume
unfoldable pub consume : Dict ResourceHandler → Notification → Exec (Unit {0})
unfolding consume_with
consume handlers n = consume_with (lookup n.resource handlers) n
