-- ===== src/Reconcile/Scheduler/Concurrent.antt =====
-- task_scheduler.go with its goroutines: NewScheduler, Schedule and Await as a step relation. A caller
-- schedules its tasks in a loop and then awaits them, as the resync does.
pub mod Slots
pub mod Progress
pub mod Outcome
pub mod Sequential
use service_broker_proxy.Prelude.{
  ℕ, zero, suc, ◌+◌, ◌%◌, ◌^◌, ◌<◌, Bool, true, false, ◌≡◌, Option, none, some,
}
use service_broker_proxy.Types.{context_done}
use service_broker_proxy.Exec.{Result, ok, err}
use service_broker_proxy.Reconcile.Scheduler.{count_error, await}

-- What the caller does when Schedule returns an error: the loops over visibilities return it, those
-- over brokers log it and go on.
pub data OnRefusal : Type 0 where
  returns goes_on : OnRefusal

-- Tasks are counted by where they are: not yet passed to Schedule, in `f`, behind it with their slot
-- of waitGroupLimit, or behind the release of the slot. `failed` and `refused` are histories.
pub record State : Type 0 where
  pub todo : ℕ
  pub executing : ℕ
  pub leaving : ℕ
  pub signalling : ℕ
  pub succeeded : ℕ
  pub failed : ℕ
  pub refused : ℕ
  pub slots : ℕ
  pub wait_group : ℕ
  pub error_count : ℕ
  pub cancelled : Bool
  pub returned : Option (Result (Unit {0}))

abbrev pub start : ℕ → State
start tasks = record {
  todo = tasks;
  executing = 0;
  leaving = 0;
  signalling = 0;
  succeeded = 0;
  failed = 0;
  refused = 0;
  slots = 0;
  wait_group = 0;
  error_count = 0;
  cancelled = false;
  returned = none;
}

module _ (capacity : ℕ) (on_refusal : OnRefusal) where
  pub data Step (s : State) : State → Type 0 where
    cancel : s.cancelled ≡ false → Step s (record s { cancelled = true })
    -- the select of Schedule
    schedule :
        {n : ℕ}
        → s.returned ≡ none
        → s.todo ≡ suc n
        → s.slots < capacity
        → Step s (record s {
          todo = n;
          slots = s.slots + 1;
          wait_group = s.wait_group + 1;
          executing = s.executing + 1;
        })
    refuse :
        {n : ℕ}
        → s.returned ≡ none
        → s.todo ≡ suc n
        → s.cancelled ≡ true
        → on_refusal ≡ goes_on
        → Step s (record s { todo = n; refused = s.refused + 1 })
    give_up :
        {n : ℕ}
        → s.returned ≡ none
        → s.todo ≡ suc n
        → s.cancelled ≡ true
        → on_refusal ≡ returns
        → Step s (record s {
          todo = 0;
          refused = s.refused + s.todo;
          returned = some (err context_done);
        })
    -- the goroutine of a task
    succeed :
        {n : ℕ}
        → s.executing ≡ suc n
        → Step s (record s { executing = n; leaving = s.leaving + 1; succeeded = s.succeeded + 1 })
    fail :
        {n : ℕ}
        → s.executing ≡ suc n
        → Step s (record s {
          executing = n;
          leaving = s.leaving + 1;
          failed = s.failed + 1;
          error_count = (s.error_count + 1) % 2 ^ 32;
        })
    release :
        {n m : ℕ}
        → s.leaving ≡ suc n
        → s.slots ≡ suc m
        → Step s (record s { leaving = n; slots = m; signalling = s.signalling + 1 })
    finish :
        {n m : ℕ}
        → s.signalling ≡ suc n
        → s.wait_group ≡ suc m
        → Step s (record s { signalling = n; wait_group = m })
    -- Await
    awaited :
        s.returned ≡ none
        → s.todo ≡ 0
        → s.wait_group ≡ 0
        → Step s (record s { returned = some (await s.error_count) })

  -- The states that are reached in a number of steps.
  pub data Reach (s : State) : ℕ → State → Type 0 where
    here : Reach s 0 s
    next : {n : ℕ} {t u : State} → Reach s n t → Step t u → Reach s (suc n) u
