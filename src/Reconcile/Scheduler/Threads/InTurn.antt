-- ===== src/Reconcile/Scheduler/Threads/InTurn.antt =====
-- Tasks of task_scheduler.go that never interrupt one another.
use service_broker_proxy.Prelude.{ℕ, ◌<◌, false, refl, List, [], ◌∷◌, map}
use service_broker_proxy.Exec.{Log}
use service_broker_proxy.Exec.Threads.{Thread, ended, calling, run}
use service_broker_proxy.Reconcile.Scheduler.{count_error, run_tasks}
use service_broker_proxy.Reconcile.Scheduler.Threads.{
  State, schedule, call, finish, Reach, here, next,
}

abbrev pub at : List (Thread (Unit {0})) → List (Thread (Unit {0})) → ℕ → Log → State
at waiting running errors s = record {
  waiting = waiting;
  running = running;
  error_count = errors;
  cancelled = false;
  log = s;
}

module _ (capacity : ℕ) where
  Reach-trans : {s t u : State} → Reach capacity s t → Reach capacity t u → Reach capacity s u
  Reach-trans r here = r
  Reach-trans r (next q st) = next (Reach-trans r q) st

  run-Reach :
      (w : List (Thread (Unit {0}))) (m : Thread (Unit {0})) (n : ℕ) (s : Log)
      → Reach capacity (at w (m ∷ []) n s) (at w [] (count_error (run m s).0 n) (run m s).1)
  unfolding run
  run-Reach w (ended r) n s = next here (finish r [] [] refl)
  run-Reach w (calling c k) n s =
      Reach-trans (next here (call k [] [] refl)) (run-Reach w (k s) n (c ∷ s))

  -- With a slot, the tasks can run one after the other, in the order in which they are scheduled.
  pub run_tasks-Reach :
      (ms : List (Thread (Unit {0}))) (n : ℕ) (s : Log)
      → 0 < capacity
      → Reach capacity
          (at ms [] n s)
          (at [] [] (run_tasks (map run ms) n s).0 (run_tasks (map run ms) n s).1)
  unfolding run_tasks
  run_tasks-Reach [] n s h = here
  run_tasks-Reach (m ∷ ms) n s h =
      Reach-trans (next here (schedule refl h))
        (Reach-trans (run-Reach ms m n s) (run_tasks-Reach ms _ _ h))
