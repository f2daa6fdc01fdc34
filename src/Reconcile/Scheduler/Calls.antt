-- ===== src/Reconcile/Scheduler/Calls.antt =====
-- Tasks that make one call each: what run_tasks and Await make of their answers.
use service_broker_proxy.Prelude.{
  ℕ, ◌+◌, ◌^◌, ◌≤◌, ◌<◌, ◌≡◌, refl, List, [], ◌∷◌, map, length, arith,
}
use service_broker_proxy.Exec.{Log, Result, ok, err, Exec, perform, ◌>>=◌}
use service_broker_proxy.Exec.Calls.{Call}
use service_broker_proxy.Reconcile.Scheduler.{count_error, run_tasks, await, schedule_all}

-- The log after some calls, of which the first is made first.
abbrev pub after : List Call → Log → Log
after [] s = s
after (c ∷ cs) s = after cs (c ∷ s)

abbrev pub failure {ℓ} : {A : Type ℓ} → Result A → ℕ
failure (ok a) = 0
failure (err e) = 1

count_error-small :
    (r : Result (Unit {0})) (n : ℕ) → n + 1 < 2 ^ 32 → count_error r n ≡ n + failure r
count_error-small (ok u) n h = omega arith
count_error-small (err e) n h = omega (arith, h)

failure-le : (r : Result (Unit {0})) → failure r ≤ 1
failure-le (ok u) = omega arith
failure-le (err e) = omega arith

module _ {X : Type 0} (call : X → Call) (answer : Log → X → Result (Unit {0})) where
  -- How many of the calls, made one after the other, are answered with an error.
  pub failures : List X → Log → ℕ
  failures [] s = 0
  failures (x ∷ xs) s = failure (answer s x) + failures xs (call x ∷ s)

  errors_of : List X → ℕ → Log → ℕ
  errors_of [] n s = n
  errors_of (x ∷ xs) n s = errors_of xs (count_error (answer s x) n) (call x ∷ s)

  -- The task of one call.
  abbrev pub task : X → Exec (Unit {0})
  task x = perform (call x) (λ t. answer t x)

  run_tasks-calls :
      (xs : List X) (n : ℕ) (s : Log)
      → run_tasks (map task xs) n s ≡ (errors_of xs n s, after (map call xs) s)
  unfolding run_tasks errors_of ◌>>=◌
  run_tasks-calls [] n s = refl
  run_tasks-calls (x ∷ xs) n s = run_tasks-calls xs (count_error (answer s x) n) (call x ∷ s)

  errors_of-failures :
      (xs : List X) (n : ℕ) (s : Log)
      → n + length xs < 2 ^ 32
      → errors_of xs n s ≡ n + failures xs s
  unfolding errors_of failures
  errors_of-failures [] n s h = omega arith
  errors_of-failures (x ∷ xs) n s h = rw (count_error-small (answer s x) n (omega (arith, h))) (
      omega (
        arith,
        errors_of-failures xs (n + failure (answer s x)) (call x ∷ s)
            (omega (arith, h, failure-le (answer s x))),
      ))

  -- With fewer than 2 ^ 32 calls, each is made once and in order, and Await fails if and only if one of
  -- them does.
  pub schedule_all-calls :
      (xs : List X) (s : Log)
      → length xs < 2 ^ 32
      → schedule_all (map task xs) s ≡ (await (failures xs s), after (map call xs) s)
  unfolding schedule_all
  schedule_all-calls xs s h =
      let count : errors_of xs 0 s ≡ failures xs s =
        omega (arith, errors_of-failures xs 0 s (omega (arith, h))) in
      rw (run_tasks-calls xs 0 s, count)
