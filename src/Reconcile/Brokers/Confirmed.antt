-- ===== src/Reconcile/Brokers/Confirmed.antt =====
-- The activations of credentials by the tasks of reconcile_brokers.go.
use service_broker_proxy.Prelude.{String, List, arith, All-always}
use service_broker_proxy.Types.{ServiceBroker}
use service_broker_proxy.Exec.{Exec, ◌>>=◌}
use service_broker_proxy.Exec.Keeps.{Keeps, Keeps-bind, Keeps-attempt, Keeps-pure}
use service_broker_proxy.Clients.{Env}
use service_broker_proxy.Clients.Confirmed.{IsConfirmed, plain-IsConfirmed}
use service_broker_proxy.Clients.Plain.{get_brokers-Keeps}
use service_broker_proxy.Clients
use service_broker_proxy.Reconcile.Job.{ResyncJob}
use service_broker_proxy.Reconcile.Scheduler.Invariants.{schedule_all-Keeps}
use service_broker_proxy.Reconcile.Brokers.{
  Task, create_registration, update_registration, fetch_catalog, delete_registration, broker_tasks,
}
use service_broker_proxy.Reconcile.Brokers.Tasks.{
  create_broker_registration, update_broker_registration, fetch_broker_catalog,
  delete_broker_registration, run_task, reconcile_brokers,
}

module _ (env : Env) (r : ResyncJob) where
  create_broker_registration-IsConfirmed :
      (b : ServiceBroker) (name : String)
      → Keeps (IsConfirmed env) (create_broker_registration env r b name)
  unfolding create_broker_registration ◌>>=◌
  create_broker_registration-IsConfirmed b name = record { at = λ s p. ground arith }

  update_broker_registration-IsConfirmed :
      (guid : String) (b : ServiceBroker) (name : String)
      → Keeps (IsConfirmed env) (update_broker_registration env r guid b name)
  unfolding update_broker_registration ◌>>=◌
  update_broker_registration-IsConfirmed guid b name = record { at = λ s p. ground arith }

  fetch_broker_catalog-IsConfirmed :
      (guid : String) (b : ServiceBroker) (name : String)
      → Keeps (IsConfirmed env) (fetch_broker_catalog env r guid b name)
  unfolding fetch_broker_catalog ◌>>=◌
  fetch_broker_catalog-IsConfirmed guid b name = record { at = λ s p. ground arith }

  run_task-IsConfirmed : (t : Task) → Keeps (IsConfirmed env) (run_task env r t)
  unfolding run_task
  run_task-IsConfirmed (create_registration b name) = create_broker_registration-IsConfirmed b name
  run_task-IsConfirmed (update_registration guid b name) =
      update_broker_registration-IsConfirmed guid b name
  run_task-IsConfirmed (fetch_catalog guid b name) = fetch_broker_catalog-IsConfirmed guid b name
  run_task-IsConfirmed (delete_registration b) =
      unfold delete_broker_registration ◌>>=◌ in record { at = λ s p. (tt, p) }

  reconcile_brokers-IsConfirmed :
      (existing desired : List ServiceBroker)
      → Keeps (IsConfirmed env) (reconcile_brokers env r existing desired)
  unfolding reconcile_brokers
  reconcile_brokers-IsConfirmed existing desired =
      Keeps-bind _ _
        (Keeps-attempt _ (record {
          at = λ s p.
              let tasks = broker_tasks r (env.loop_lags s) existing desired in
              (schedule_all-Keeps _ (run_task env r) tasks
                  (All-always run_task-IsConfirmed tasks)).at
                s p;
        }))
        (λ _. Keeps-pure tt)

  pub reconciled-IsConfirmed :
      (desired : List ServiceBroker) (rest : Exec (Unit {0}))
      → Keeps (IsConfirmed env) rest
      → Keeps (IsConfirmed env) (
          Clients.get_brokers env >>= λ existing.
          reconcile_brokers env r existing desired >>= λ _. rest)
  reconciled-IsConfirmed desired rest keep =
      Keeps-bind _ _ (get_brokers-Keeps (plain-IsConfirmed env) env)
        (λ existing. Keeps-bind _ _ (reconcile_brokers-IsConfirmed existing desired) (λ _. keep))
