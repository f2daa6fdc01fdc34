-- ===== src/Reconcile/Brokers/Threads/Alone.antt =====
-- The threads of reconcile_brokers.go, each run alone.
use mathlib.Core.Path.{fun_ext}
use service_broker_proxy.Prelude.{
  ℕ, String, ◌<◌, ◌≡◌, refl, ap, ◌∙◌, subst, List, [], ◌∷◌, map, arith,
}
use service_broker_proxy.Types.{ServiceBroker}
use service_broker_proxy.Exec.{Log, ◌>>=◌}
use service_broker_proxy.Exec.Threads
use service_broker_proxy.Exec.Threads.{run}
use service_broker_proxy.Clients.{Env}
use service_broker_proxy.Reconcile.Job.{ResyncJob}
use service_broker_proxy.Reconcile.Scheduler.{run_tasks, schedule_all}
use service_broker_proxy.Reconcile.Scheduler.Threads.{start, Reach}
use service_broker_proxy.Reconcile.Scheduler.Threads.InTurn.{at, run_tasks-Reach}
use service_broker_proxy.Reconcile.Brokers.{
  Task, create_registration, update_registration, fetch_catalog, delete_registration, broker_tasks,
}
use service_broker_proxy.Reconcile.Brokers.Tasks.{
  create_broker_registration, update_broker_registration, fetch_broker_catalog,
  delete_broker_registration, run_task, reconcile_brokers,
}
use service_broker_proxy.Reconcile.Brokers.Threads.{
  create_thread, update_thread, fetch_thread, delete_thread, thread_of, ReconcilesTo,
}

module _ (env : Env) (r : ResyncJob) (s : Log) where
  run-create :
      (b : ServiceBroker) (name : String)
      → run (create_thread env r b name) s ≡ create_broker_registration env r b name s
  unfolding run create_thread create_broker_registration ◌>>=◌ Threads.◌>>=◌
  run-create b name = ground arith

  run-update :
      (guid : String) (b : ServiceBroker) (name : String)
      → run (update_thread env r guid b name) s ≡ update_broker_registration env r guid b name s
  unfolding run update_thread update_broker_registration ◌>>=◌ Threads.◌>>=◌
  run-update guid b name = ground arith

  run-fetch :
      (guid : String) (b : ServiceBroker) (name : String)
      → run (fetch_thread env r guid b name) s ≡ fetch_broker_catalog env r guid b name s
  unfolding run fetch_thread fetch_broker_catalog ◌>>=◌ Threads.◌>>=◌
  run-fetch guid b name = ground arith

  run-delete :
      (b : ServiceBroker) → run (delete_thread env r b) s ≡ delete_broker_registration env r b s
  unfolding run delete_thread delete_broker_registration ◌>>=◌
  run-delete b = refl

  -- A thread that nothing interrupts does what the task does.
  pub run-thread_of : (t : Task) → run (thread_of env r t) s ≡ run_task env r t s
  unfolding thread_of run_task
  run-thread_of (create_registration b name) = run-create b name
  run-thread_of (update_registration guid b name) = run-update guid b name
  run-thread_of (fetch_catalog guid b name) = run-fetch guid b name
  run-thread_of (delete_registration b) = run-delete b

run_threads :
    (env : Env) (r : ResyncJob) (ts : List Task)
    → map run (map (thread_of env r) ts) ≡ map (run_task env r) ts
run_threads env r [] = refl
run_threads env r (t ∷ ts) =
    ap (λ x. x ∷ map run (map (thread_of env r) ts)) (fun_ext (λ s. run-thread_of env r s t))
    ∙ ap (λ xs. run_task env r t ∷ xs) (run_threads env r ts)

-- What reconcileBrokers does with its tasks one after the other is among what it can do with its tasks
-- taking turns: given a slot, and with the same readings of the loop variable, a state is reached in
-- which no task is left, with exactly the calls of the former.
pub reconcile_brokers-ReconcilesTo :
    (env : Env) (r : ResyncJob) (capacity : ℕ) (existing desired : List ServiceBroker) (s : Log)
    → 0 < capacity
    → (errors : ℕ) × ReconcilesTo env r capacity
        (env.loop_lags s)
        existing
        desired
        s
        (at [] [] errors (reconcile_brokers env r existing desired s).1)
unfolding reconcile_brokers schedule_all ◌>>=◌
reconcile_brokers-ReconcilesTo env r capacity existing desired s h =
    let tasks = broker_tasks r (env.loop_lags s) existing desired in
    let reached = run_tasks-Reach capacity (map (thread_of env r) tasks) 0 s h in
    (
      _,
      subst
          (λ ts.
            Reach capacity (start (map (thread_of env r) tasks) s)
              (at [] [] (run_tasks ts 0 s).0 (run_tasks ts 0 s).1))
          (run_threads env r tasks) reached,
    )
