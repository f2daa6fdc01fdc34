-- ===== src/Reconcile/Scheduler/Concurrent/Sequential.antt =====
-- The scheduler that runs its tasks one after the other, as one schedule of the goroutines.
use service_broker_proxy.Prelude.{
  ℕ, suc, ◌+◌, ◌<◌, ◌≡◌, refl, subst, arith, false, some, List, [], ◌∷◌, length,
}
use service_broker_proxy.Exec.{Log, Result, ok, err, Exec}
use service_broker_proxy.Reconcile.Scheduler.{count_error, run_tasks, await, schedule_all}
use service_broker_proxy.Reconcile.Scheduler.Calls.{failure}
use service_broker_proxy.Reconcile.Scheduler.Concurrent.{
  OnRefusal, State, start, schedule, succeed, fail, release, finish, awaited, Reach, here, next,
}

-- How many of the tasks fail, one after the other.
pub failed_of : List (Exec (Unit {0})) → Log → ℕ
failed_of [] s = 0
failed_of (f ∷ fs) s = let (r, s') = f s in failure r + failed_of fs s'

-- Between two tasks that run one after the other.
abbrev between : ℕ → ℕ → ℕ → ℕ → State
between tasks errors successes failures = record (start tasks) {
  error_count = errors;
  succeeded = successes;
  failed = failures;
}

module _ (capacity : ℕ) (r : OnRefusal) where
  -- A run of the goroutines that ends with the result, after so many tasks have failed.
  abbrev pub Ends : State → Result (Unit {0}) → ℕ → Type 0
  Ends s result failures =
      (n : ℕ) × ((t : State) × Reach capacity r s n t
        × (t.returned ≡ some result)
        × (t.failed ≡ failures)
        × (t.cancelled ≡ false))

  one_task :
      {s : State} {n : ℕ} (tasks errors a b : ℕ) (result : Result (Unit {0}))
      → 0 < capacity
      → Reach capacity r s n (between (suc tasks) errors a b)
      → (m : ℕ) × ((a' : ℕ) × ((b' : ℕ) × (b' ≡ b + failure result)
            × Reach capacity r s m (between tasks (count_error result errors) a' b')))
  one_task tasks errors a b (ok u) c p = (
    _,
    (
      a + 1,
      (
        b,
        omega arith,
        next (next (next (next p (schedule refl refl c)) (succeed refl)) (release refl refl))
            (finish refl refl),
      ),
    ),
  )
  one_task tasks errors a b (err e) c p = (
    _,
    (
      a,
      (
        b + 1,
        refl,
        next (next (next (next p (schedule refl refl c)) (fail refl)) (release refl refl))
            (finish refl refl),
      ),
    ),
  )

  run_tasks-Ends :
      {s : State} (fs : List (Exec (Unit {0}))) {n : ℕ} (errors a b : ℕ) (log : Log)
      → 0 < capacity
      → Reach capacity r s n (between (length fs) errors a b)
      → Ends s (await (run_tasks fs errors log).0) (b + failed_of fs log)
  unfolding run_tasks failed_of
  run_tasks-Ends [] errors a b log c p =
      (_, (_, next p (awaited refl refl refl), refl, omega arith, refl))
  run_tasks-Ends (f ∷ fs) errors a b log c p =
      let (result, log') = f log in
      let (m, (a', (b', e, q))) = one_task (length fs) errors a b result c p in
      subst (Ends _ _) (omega (arith, e))
        (run_tasks-Ends fs (count_error result errors) a' b' log' c q)

  -- With at least one slot, there is a run of the goroutines without a cancellation, for as many tasks
  -- of which as many fail, that ends with what the scheduler that runs its tasks one after the other
  -- returns.
  pub schedule_all-Ends :
      (fs : List (Exec (Unit {0}))) (log : Log)
      → 0 < capacity
      → Ends (start (length fs)) (schedule_all fs log).0 (failed_of fs log)
  unfolding schedule_all
  schedule_all-Ends fs log c = subst (Ends _ _) (omega arith) (run_tasks-Ends fs 0 0 0 log c here)
