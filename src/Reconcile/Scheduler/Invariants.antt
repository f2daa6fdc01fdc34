-- ===== src/Reconcile/Scheduler/Invariants.antt =====
-- Invariants of the log, for the scheduler of task_scheduler.go.
use service_broker_proxy.Prelude.{ℕ, List, [], ◌∷◌, map, All}
use service_broker_proxy.Exec.{Log, Exec}
use service_broker_proxy.Exec.Keeps.{Keeps}
use service_broker_proxy.Reconcile.Scheduler.{count_error, run_tasks, schedule_all}

module _ {A : Type 0} (P : Log → Type 0) (task : A → Exec (Unit {0})) where
  run_tasks-Keeps :
      (tasks : List A) (errors : ℕ) (s : Log)
      → All (λ a. Keeps P (task a)) tasks
      → P s
      → P (run_tasks (map task tasks) errors s).1
  unfolding run_tasks
  run_tasks-Keeps [] errors s keep p = p
  run_tasks-Keeps (a ∷ rest) errors s (k, keep) p =
      let (r, s') = task a s in run_tasks-Keeps rest (count_error r errors) s' keep (k.at s p)

  pub schedule_all-Keeps :
      (tasks : List A) → All (λ a. Keeps P (task a)) tasks → Keeps P (schedule_all (map task tasks))
  unfolding schedule_all
  schedule_all-Keeps tasks keep = record { at = λ s p. run_tasks-Keeps tasks 0 s keep p }
