-- ===== src/Reconcile/Scheduler/Threads.antt =====
-- task_scheduler.go with the calls that its tasks make: the goroutines of Schedule take turns between
-- the calls. The module Concurrent counts the goroutines, and has their last steps one by one.
pub mod Guarded
pub mod Steady
pub mod InTurn
pub mod Counted
use service_broker_proxy.Prelude.{ℕ, suc, ◌<◌, Bool, true, false, ◌≡◌, List, [], ◌∷◌, ◌++◌, length}
use service_broker_proxy.Exec.{Log, Result}
use service_broker_proxy.Exec.Calls.{Call}
use service_broker_proxy.Exec.Threads.{Thread, ended, calling}
use service_broker_proxy.Reconcile.Scheduler.{count_error}

-- `waiting` are the tasks that the loop has not yet passed to Schedule, `running` those that hold a
-- slot of waitGroupLimit.
pub record State : Type 0 where
  pub waiting : List (Thread (Unit {0}))
  pub running : List (Thread (Unit {0}))
  pub error_count : ℕ
  pub cancelled : Bool
  pub log : Log

-- NewScheduler, and a loop that has not begun.
abbrev pub start : List (Thread (Unit {0})) → Log → State
start tasks s = record {
  waiting = tasks;
  running = [];
  error_count = 0;
  cancelled = false;
  log = s;
}

module _ (capacity : ℕ) where
  pub data Step (s : State) : State → Type 0 where
    cancel : s.cancelled ≡ false → Step s (record s { cancelled = true })
    -- the select of Schedule
    schedule :
        {t : Thread (Unit {0})} {ts : List (Thread (Unit {0}))}
        → s.waiting ≡ t ∷ ts
        → length s.running < capacity
        → Step s (record s { waiting = ts; running = t ∷ s.running })
    -- Schedule returns the context's error; the loop logs it and goes on.
    refuse :
        {t : Thread (Unit {0})} {ts : List (Thread (Unit {0}))}
        → s.waiting ≡ t ∷ ts
        → s.cancelled ≡ true
        → Step s (record s { waiting = ts })
    -- One of the running tasks makes its next call.
    call :
        {c : Call} (k : Log → Thread (Unit {0})) (before behind : List (Thread (Unit {0})))
        → s.running ≡ before ++ calling c k ∷ behind
        → Step s (record s { running = before ++ k s.log ∷ behind; log = c ∷ s.log })
    -- One of them ends, and gives its slot back.
    finish :
        (r : Result (Unit {0})) (before behind : List (Thread (Unit {0})))
        → s.running ≡ before ++ ended r ∷ behind
        → Step s
            (record s { running = before ++ behind; error_count = count_error r s.error_count })

  -- The states that are reached in any number of steps.
  pub data Reach (s : State) : State → Type 0 where
    here : Reach s s
    next : {t u : State} → Reach s t → Step t u → Reach s u
