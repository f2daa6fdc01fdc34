-- ===== src/Reconcile/Scheduler/Concurrent/Outcome.antt =====
-- What the caller of the scheduler returns.
use service_broker_proxy.Prelude.{
  ℕ, ◌+◌, ◌%◌, ◌^◌, ◌<◌, ◌≡◌, refl, Option, none, some, arith, ◌⊎◌, inl, inr,
}
use service_broker_proxy.Types.{context_done}
use service_broker_proxy.Exec.{Result, ok, err}
use service_broker_proxy.Reconcile.Scheduler.{await}
use service_broker_proxy.Reconcile.Scheduler.Concurrent.{
  OnRefusal, returns, goes_on, State, start, Step, cancel, schedule, refuse, give_up, succeed, fail,
  release, finish, awaited, Reach, here, next,
}
use service_broker_proxy.Reconcile.Scheduler.Concurrent.Slots.{Inv, start-Reach-Inv}

-- The caller gave up, or every goroutine has ended and the error count was read after that.
abbrev IsOutcome : OnRefusal → State → Option (Result (Unit {0})) → Type 0
IsOutcome c s none = Unit
IsOutcome c s (some r) =
    (s.todo ≡ 0)
    × (((c ≡ returns) × (r ≡ err context_done)) ⊎ ((s.wait_group ≡ 0) × (r ≡ await s.error_count)))

-- A caller that returns on a refusal has nothing refused until then.
abbrev NoneRefused : OnRefusal → State → Type 0
NoneRefused goes_on s = Unit
NoneRefused returns s = (s.refused ≡ 0) ⊎ (s.returned ≡ some (err context_done))

module _ (capacity tasks : ℕ) where
  Step-IsOutcome :
      {r : OnRefusal} {s t : State}
      → Step capacity r s t
      → Inv capacity tasks s
      → IsOutcome r s s.returned
      → IsOutcome r t t.returned
  Step-IsOutcome (cancel c) v o = o
  Step-IsOutcome (schedule e n l) v o = ground arith
  Step-IsOutcome (refuse e n c r) v o = ground arith
  Step-IsOutcome (give_up e n c r) v o = (refl, inl (r, refl))
  Step-IsOutcome (succeed n) v o = ground arith
  Step-IsOutcome (fail n) v o = ground arith
  Step-IsOutcome (release n m) v o = ground arith
  Step-IsOutcome (finish n m) v o = ground arith
  Step-IsOutcome (awaited e n m) v o = (n, inr (m, refl))

  Reach-IsOutcome :
      {r : OnRefusal} {n : ℕ} {s : State}
      → Reach capacity r (start tasks) n s
      → IsOutcome r s s.returned
  Reach-IsOutcome here = tt
  Reach-IsOutcome (next p st) =
      Step-IsOutcome st (start-Reach-Inv capacity tasks p) (Reach-IsOutcome p)

  Step-NoneRefused :
      {s t : State} → Step capacity returns s t → NoneRefused returns s → NoneRefused returns t
  Step-NoneRefused (cancel c) o = o
  Step-NoneRefused (schedule e n l) o = o
  Step-NoneRefused (refuse e n c r) o = ground arith
  Step-NoneRefused (give_up e n c r) o = inr refl
  Step-NoneRefused (succeed n) o = o
  Step-NoneRefused (fail n) o = o
  Step-NoneRefused (release n m) o = o
  Step-NoneRefused (finish n m) o = o
  Step-NoneRefused (awaited e n m) o = ground arith

  Reach-NoneRefused :
      {n : ℕ} {s : State} → Reach capacity returns (start tasks) n s → NoneRefused returns s
  Reach-NoneRefused here = inl refl
  Reach-NoneRefused (next p st) = Step-NoneRefused st (Reach-NoneRefused p)

  await-ok : (n : ℕ) → await n ≡ ok tt → n ≡ 0
  unfolding await
  await-ok n e = ground arith

  -- With less than 2 ^ 32 tasks and a caller that returns the error of Schedule: if it returns no error,
  -- then every task has run to its end without an error. The goroutines have ended too.
  pub ok_means_success :
      (n : ℕ) (s : State)
      → tasks < 2 ^ 32
      → Reach capacity returns (start tasks) n s
      → s.returned ≡ some (ok tt)
      → (s.succeeded ≡ tasks) × (s.wait_group ≡ 0)
  ok_means_success n s small p e =
      let v = start-Reach-Inv capacity tasks p in
      ground (arith, Reach-IsOutcome p, Reach-NoneRefused p, await-ok s.error_count)

  -- A caller that goes on after a refusal returns only when no task executes and each has ended or was
  -- refused, and what it returns is the result of Await for the number of failed tasks.
  pub returned_of_failed :
      (n : ℕ) (s : State) {r : Result (Unit {0})}
      → Reach capacity goes_on (start tasks) n s
      → s.returned ≡ some r
      → (s.executing ≡ 0)
        × (s.succeeded + s.failed + s.refused ≡ tasks)
        × (r ≡ await (s.failed % 2 ^ 32))
  returned_of_failed n s p e =
      let v = start-Reach-Inv capacity tasks p in ground (arith, Reach-IsOutcome p)
