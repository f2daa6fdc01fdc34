-- ===== src/Sbproxy/Confirmed.antt =====
-- The activations of credentials by the whole proxy.
use service_broker_proxy.Prelude.{List}
use service_broker_proxy.Exec.{Log}
use service_broker_proxy.Clients.{Env}
use service_broker_proxy.Clients.Confirmed.{IsConfirmed, plain-IsConfirmed}
use service_broker_proxy.Handlers.Broker.Confirmed.{
  on_create-IsConfirmed, on_update-IsConfirmed, on_delete-IsConfirmed,
}
use service_broker_proxy.Reconcile.Brokers.Confirmed.{reconciled-IsConfirmed}
use service_broker_proxy.Reconcile.Reconciler.{Message}
use service_broker_proxy.Sbproxy.{
  Settings, PlatformClient, Libraries, broker_handler, resync_job, process_messages,
}
use service_broker_proxy.Sbproxy.Plain.{process_messages-Keeps}

module _ (env : Env) (d : Libraries) (c : Settings) (p : PlatformClient) where
  -- Over any sequence of resync and notification messages and any answers of the clients, with the
  -- tasks of a resync run one after the other, and from a log of which this holds, as of the empty
  -- one: each activation of credentials comes after the platform accepted a request with exactly
  -- the user name and password that had just been stored for that broker, with nothing between the
  -- two but resets of the platform's cache of a broker, and activates the credential that was
  -- answered.
  pub process_messages-IsConfirmed :
      (ms : List Message) (s : Log)
      → IsConfirmed env s
      → IsConfirmed env (process_messages env d c p ms s)
  process_messages-IsConfirmed =
      process_messages-Keeps (plain-IsConfirmed env) env d c p
        (on_create-IsConfirmed env (broker_handler c p) d.broker_payload)
        (on_update-IsConfirmed env (broker_handler c p) d.broker_payload)
        (on_delete-IsConfirmed env (broker_handler c p) d.broker_payload)
        (reconciled-IsConfirmed env (resync_job c p))
