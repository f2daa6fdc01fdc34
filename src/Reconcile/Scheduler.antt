-- ===== src/Reconcile/Scheduler.antt =====
-- task_scheduler.go, as the reconciliation uses it: tasks are scheduled in a loop and then awaited.
-- The tasks run one after the other here, in the order in which they were scheduled; the module
-- Concurrent has the goroutines.
pub mod Concurrent
pub mod Invariants
pub mod Calls
pub mod Threads
use service_broker_proxy.Prelude.{ℕ, ◌+◌, ◌%◌, ◌^◌, List, [], ◌∷◌, ltb, if◌then◌else◌}
use service_broker_proxy.Types.{failed}
use service_broker_proxy.Exec.{Log, Result, ok, err, Exec}

-- `atomic.AddUint32(&state.errorCount, 1)` if the task failed
abbrev pub count_error {ℓ} : {A : Type ℓ} → Result A → ℕ → ℕ
count_error (ok a) n = n
count_error (err e) n = (n + 1) % 2 ^ 32

-- All tasks, with the number of those that failed.
unfoldable pub run_tasks : List (Exec (Unit {0})) → ℕ → Log → ℕ × Log
run_tasks [] errors s = (errors, s)
run_tasks (f ∷ fs) errors s = let (r, s') = f s in run_tasks fs (count_error r errors) s'

-- Await
unfoldable pub await : ℕ → Result (Unit {0})
await errors = if ltb 0 errors then err (failed "errors occurred") else ok tt

-- A new scheduler, its tasks, and Await.
unfoldable pub schedule_all : List (Exec (Unit {0})) → Exec (Unit {0})
unfolding run_tasks await
schedule_all fs s = let (errors, s') = run_tasks fs 0 s in (await errors, s')
