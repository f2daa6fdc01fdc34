-- ===== src/Reconcile/Scheduler/Concurrent/Slots.antt =====
-- Invariants of the scheduler: slots, the wait group and the error count against the tasks.
use service_broker_proxy.Prelude.{ℕ, ◌+◌, ◌%◌, ◌^◌, ◌≤◌, ◌≡◌, arith}
use service_broker_proxy.Reconcile.Scheduler.Concurrent.{
  OnRefusal, State, start, Step, cancel, schedule, refuse, give_up, succeed, fail, release, finish,
  awaited, Reach, here, next,
}

module _ (capacity tasks : ℕ) where
  pub record Inv (s : State) : Type 0 where
    pub limited : s.slots ≤ capacity
    pub held : s.slots ≡ s.executing + s.leaving
    pub waited : s.wait_group ≡ s.executing + s.leaving + s.signalling
    pub counted : s.todo + s.executing + s.succeeded + s.failed + s.refused ≡ tasks
    pub errors : s.error_count ≡ s.failed % 2 ^ 32

  start-Inv : Inv (start tasks)
  start-Inv = record {
    limited = omega arith;
    held = omega arith;
    waited = omega arith;
    counted = omega arith;
    errors = omega arith;
  }

  Step-Inv : {r : OnRefusal} {s t : State} → Step capacity r s t → Inv s → Inv t
  Step-Inv (cancel c) v = ground arith
  Step-Inv (schedule e n l) v = ground arith
  Step-Inv (refuse e n c r) v = ground arith
  Step-Inv (give_up e n c r) v = ground arith
  Step-Inv (succeed n) v = ground arith
  Step-Inv (fail n) v = ground arith
  Step-Inv (release n m) v = ground arith
  Step-Inv (finish n m) v = ground arith
  Step-Inv (awaited e n m) v = ground arith

  Reach-Inv :
      {r : OnRefusal} {s : State} {n : ℕ} {t : State} → Reach capacity r s n t → Inv s → Inv t
  Reach-Inv here v = v
  Reach-Inv (next p st) v = Step-Inv st (Reach-Inv p v)

  pub start-Reach-Inv :
      {r : OnRefusal} {n : ℕ} {s : State} → Reach capacity r (start tasks) n s → Inv s
  start-Reach-Inv p = Reach-Inv p start-Inv

  -- Whatever the interleaving and the cancellation: at most `capacity` tasks execute at a time, and every
  -- task is in one place: not yet scheduled, executing, ended with or without an error, or refused.
  pub bounded_parallelism :
      (r : OnRefusal) (n : ℕ) (s : State)
      → Reach capacity r (start tasks) n s
      → (s.executing ≤ capacity)
        × (s.todo + s.executing + s.succeeded + s.failed + s.refused ≡ tasks)
  bounded_parallelism r n s p =
      let v = start-Reach-Inv p in (omega (arith, v.limited, v.held), v.counted)
