-- ===== src/Sbproxy/Plain.antt =====
-- Invariants of the log that plain calls keep, for the whole proxy: what is left to show is that the
-- handlers of brokers and reconcileBrokers keep them.
use service_broker_proxy.Prelude.{true, List, [], ◌∷◌, ◌==◌, Bool-cases, inl, inr}
use service_broker_proxy.Prelude.Dict.{lookup}
use service_broker_proxy.Types.{
  Notification, Operation, created, modified, deleted, other_operation,
}
use service_broker_proxy.Exec.{Log, Exec, ◌>>=◌}
use service_broker_proxy.Exec.Keeps.{Keeps, Keeps-pure}
use service_broker_proxy.Clients.{Env}
use service_broker_proxy.Clients.Plain.{KeepsPlain}
use service_broker_proxy.Clients
use service_broker_proxy.Types.{ServiceBroker}
use service_broker_proxy.Reconcile.Brokers.Tasks.{reconcile_brokers}
use service_broker_proxy.Handlers.Broker.Create
use service_broker_proxy.Handlers.Broker.Update
use service_broker_proxy.Handlers.Broker.Delete
use service_broker_proxy.Handlers.Visibility.Plain.{
  create_visibility-Keeps, update_visibility-Keeps, delete_visibility-Keeps,
}
use service_broker_proxy.Reconcile.Reconciler.{Message, resync_message, change}
use service_broker_proxy.Reconcile.Resyncer.Plain.{resync-Keeps}
use service_broker_proxy.Notifications.Consumer.{dispatch, consume}
use service_broker_proxy.Sbproxy.{
  Settings, PlatformClient, Libraries, broker_handler, visibility_handler, resync_job,
  broker_resource_handler, visibility_resource_handler, handlers, process_message, process_messages,
}

module _ {P : Log → Type 0} (plain : KeepsPlain P) (env : Env) (d : Libraries) (c : Settings)
    (p : PlatformClient)
    (creates : (n : Notification)
      → Keeps P (Create.on_create env (broker_handler c p) d.broker_payload n))
    (updates : (n : Notification)
      → Keeps P (Update.on_update env (broker_handler c p) d.broker_payload n))
    (deletes : (n : Notification)
      → Keeps P (Delete.on_delete env (broker_handler c p) d.broker_payload n))
    (reconciled : (desired : List ServiceBroker) (rest : Exec (Unit {0}))
      → Keeps P rest
      → Keeps P (
          Clients.get_brokers env >>= λ existing.
          reconcile_brokers env (resync_job c p) existing desired >>= λ _. rest)) where
  broker_dispatch-Keeps :
      (o : Operation) (n : Notification)
      → Keeps P (dispatch (broker_resource_handler env d c p) o n)
  unfolding dispatch broker_resource_handler
  broker_dispatch-Keeps created n = creates n
  broker_dispatch-Keeps modified n = updates n
  broker_dispatch-Keeps deleted n = deletes n
  broker_dispatch-Keeps (other_operation o) n = Keeps-pure tt

  visibility_dispatch-Keeps :
      (o : Operation) (n : Notification)
      → Keeps P (dispatch (visibility_resource_handler env d c p) o n)
  unfolding dispatch visibility_resource_handler
  visibility_dispatch-Keeps created n =
      create_visibility-Keeps plain env (visibility_handler c p) _
        (resync-Keeps plain env (resync_job c p) reconciled) _ n
  visibility_dispatch-Keeps modified n =
      update_visibility-Keeps plain env (visibility_handler c p) _ n
  visibility_dispatch-Keeps deleted n =
      delete_visibility-Keeps plain env (visibility_handler c p) _ n
  visibility_dispatch-Keeps (other_operation o) n = Keeps-pure tt

  consume-Keeps : (n : Notification) → Keeps P (consume (handlers env d c p) n)
  unfolding consume handlers lookup
  consume-Keeps n = elim (Bool-cases (d.service_broker_type == n.resource)) [
    | inl e ↦ rw e (broker_dispatch-Keeps n.operation n)
    | inr e ↦ rw e (elim (Bool-cases (d.visibility_type == n.resource)) [
      | inl e' ↦ rw e' (visibility_dispatch-Keeps n.operation n)
      | inr e' ↦ rw e' (Keeps-pure tt)
    ])
  ]

  process_message-Keeps : (m : Message) → Keeps P (process_message env d c p m)
  unfolding process_message
  process_message-Keeps resync_message = resync-Keeps plain env (resync_job c p) reconciled true
  process_message-Keeps (change n) = consume-Keeps n

  pub process_messages-Keeps :
      (ms : List Message) (s : Log) → P s → P (process_messages env d c p ms s)
  unfolding process_messages
  process_messages-Keeps [] s h = h
  process_messages-Keeps (m ∷ ms) s h =
      process_messages-Keeps ms (process_message env d c p m s).1 ((process_message-Keeps m).at s h)
