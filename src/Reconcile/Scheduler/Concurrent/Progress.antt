-- ===== src/Reconcile/Scheduler/Concurrent/Progress.antt =====
-- The scheduler always has a step to make until its caller returns, and every run ends.
use service_broker_proxy.Prelude.{
  ℕ, zero, suc, ◌+◌, ◌*◌, ◌≤◌, ◌<◌, ◌≡◌, refl, Bool, true, false, Option, none, some, arith, ◌⊎◌,
  inl, inr,
}
use service_broker_proxy.Exec.{Result}
use service_broker_proxy.Reconcile.Scheduler.Concurrent.{
  OnRefusal, State, start, Step, cancel, schedule, refuse, give_up, succeed, fail, release, finish,
  awaited, Reach, here, next,
}
use service_broker_proxy.Reconcile.Scheduler.Concurrent.Slots.{Inv, start-Reach-Inv}

ℕ-cases : (n : ℕ) → (n ≡ 0) ⊎ ((m : ℕ) × (n ≡ suc m))
ℕ-cases zero = inl refl
ℕ-cases (suc n) = inr (n, refl)

abbrev can_cancel : Bool → ℕ
can_cancel true = 0
can_cancel false = 1

abbrev can_return : Option (Result (Unit {0})) → ℕ
can_return none = 1
can_return (some r) = 0

-- A bound on the steps that are left.
steps_left : State → ℕ
steps_left s =
    4 * s.todo
    + 3 * s.executing
    + 2 * s.leaving
    + s.signalling
    + can_cancel s.cancelled
    + can_return s.returned

module _ (capacity : ℕ) where
  Step-steps_left :
      {r : OnRefusal} {s t : State} → Step capacity r s t → steps_left t + 1 ≤ steps_left s
  unfolding steps_left
  Step-steps_left (cancel c) = ground arith
  Step-steps_left (schedule e n l) = ground arith
  Step-steps_left (refuse e n c r) = ground arith
  Step-steps_left (give_up e n c r) = ground arith
  Step-steps_left (succeed n) = ground arith
  Step-steps_left (fail n) = ground arith
  Step-steps_left (release n m) = ground arith
  Step-steps_left (finish n m) = ground arith
  Step-steps_left (awaited e n m) = ground arith

  Reach-steps_left :
      {r : OnRefusal} {s : State} {n : ℕ} {t : State}
      → Reach capacity r s n t
      → n + steps_left t ≤ steps_left s
  Reach-steps_left here = omega arith
  Reach-steps_left (next p st) = omega (arith, Step-steps_left st, Reach-steps_left p)

  -- Every run of the scheduler, with any interleaving and cancelled at any point, has at most four steps
  -- for each task and two more.
  pub runs_end :
      (r : OnRefusal) (tasks n : ℕ) (s : State)
      → Reach capacity r (start tasks) n s
      → n ≤ 4 * tasks + 2
  unfolding steps_left
  runs_end r tasks n s p = ground (arith, Reach-steps_left p)

  -- One more step of a state in which all counts fit together.
  step_of :
      {r : OnRefusal} (tasks : ℕ) (s : State)
      → 0 < capacity
      → Inv capacity tasks s
      → s.returned ≡ none
      → (t : State) × Step capacity r s t × (t.cancelled ≡ s.cancelled)
  step_of tasks s c v e = elim (ℕ-cases s.executing) [
    | inr (n, x) ↦ (_, succeed x, refl)
    | inl x ↦ elim (ℕ-cases s.leaving) [
      | inr (n, y) ↦ (_, release {m = n} y (omega (arith, v.held)), refl)
      | inl y ↦ elim (ℕ-cases s.signalling) [
        | inr (n, z) ↦ (_, finish {m = n} z (omega (arith, v.waited)), refl)
        | inl z ↦ elim (ℕ-cases s.todo) [
          | inr (n, w) ↦ (_, schedule e w (omega (arith, v.held)), refl)
          | inl w ↦ (_, awaited e w (omega (arith, v.waited)), refl)
        ]
      ]
    ]
  ]

  -- As long as the caller has not returned, a step other than a cancellation is possible, if there is at
  -- least one slot: the scheduler does not deadlock.
  pub no_deadlock :
      (r : OnRefusal) (tasks n : ℕ) (s : State)
      → 0 < capacity
      → Reach capacity r (start tasks) n s
      → s.returned ≡ none
      → (t : State) × Step capacity r s t × (t.cancelled ≡ s.cancelled)
  no_deadlock r tasks n s c p e = step_of tasks s c (start-Reach-Inv capacity tasks p) e
