-- ===== src/Reconcile/Scheduler/Threads/Counted.antt =====
-- The threads of task_scheduler.go, counted.
use service_broker_proxy.Prelude.{
  ℕ, suc, ◌+◌, ◌≡◌, refl, ap, subst, none, List, ◌∷◌, ◌++◌, length, length-append, arith,
}
use service_broker_proxy.Exec.{Log, ok, err}
use service_broker_proxy.Exec.Threads.{Thread, ended, calling}
use service_broker_proxy.Reconcile.Scheduler.Concurrent
use service_broker_proxy.Reconcile.Scheduler.Concurrent.{goes_on, succeed, fail, release}
use service_broker_proxy.Reconcile.Scheduler.Threads.{
  State, start, Step, cancel, schedule, refuse, call, finish, Reach, here, next,
}

-- The state of the module Concurrent: no task is between its end and the return of its slot.
abbrev pub counts : State → ℕ → ℕ → ℕ → Concurrent.State
counts s succeeded failed refused = record {
  todo = length s.waiting;
  executing = length s.running;
  leaving = 0;
  signalling = 0;
  succeeded = succeeded;
  failed = failed;
  refused = refused;
  slots = length s.running;
  wait_group = length s.running;
  error_count = s.error_count;
  cancelled = s.cancelled;
  returned = none;
}

module _ (capacity : ℕ) (from : Concurrent.State) where
  -- The counts of the state are reached.
  pub record IsCounted (s : State) : Type 0 where
    pub succeeded : ℕ
    pub failed : ℕ
    pub refused : ℕ
    pub steps : ℕ
    pub reached : Concurrent.Reach capacity goes_on from steps (counts s succeeded failed refused)

  further :
      (s : State) {n : ℕ} {c c' : Concurrent.State} (x y z : ℕ)
      → Concurrent.Reach capacity goes_on from n c
      → Concurrent.Step capacity goes_on c c'
      → c' ≡ counts s x y z
      → IsCounted s
  further s {n} x y z r st e = record {
    succeeded = x;
    failed = y;
    refused = z;
    steps = suc n;
    reached =
        subst (λ d. Concurrent.Reach capacity goes_on from (suc n) d) e (Concurrent.next r st);
  }

  length-split :
      (xs ys : List (Thread (Unit {0}))) (m : Thread (Unit {0}))
      (running : List (Thread (Unit {0})))
      → running ≡ xs ++ m ∷ ys
      → length running ≡ suc (length (xs ++ ys))
  length-split xs ys m running e =
      omega (arith, ap length e, length-append xs (m ∷ ys), length-append xs ys)

  kept :
      (running xs ys : List (Thread (Unit {0}))) (m m' : Thread (Unit {0}))
      → running ≡ xs ++ m ∷ ys
      → length running ≡ length (xs ++ m' ∷ ys)
  kept running xs ys m m' e =
      omega (arith, ap length e, length-append xs (m ∷ ys), length-append xs (m' ∷ ys))

  Step-IsCounted : {s t : State} → Step capacity s t → IsCounted s → IsCounted t
  Step-IsCounted {s} (cancel e) v =
      further _ v.succeeded v.failed v.refused v.reached (Concurrent.cancel e) refl
  Step-IsCounted {s} (schedule e h) v =
      further _ v.succeeded v.failed v.refused v.reached (Concurrent.schedule refl (ap length e) h)
        (ground arith)
  Step-IsCounted {s} (refuse e h) v =
      further _ v.succeeded v.failed (v.refused + 1) v.reached
        (Concurrent.refuse refl (ap length e) h refl) refl
  Step-IsCounted {s} (call k before behind e) v = record {
    succeeded = v.succeeded;
    failed = v.failed;
    refused = v.refused;
    steps = v.steps;
    reached =
        subst
          (λ (n : ℕ).
            Concurrent.Reach capacity goes_on from v.steps
              (record (counts s v.succeeded v.failed v.refused) {
                executing = n;
                slots = n;
                wait_group = n;
              }))
          (kept s.running before behind (calling _ k) (k s.log) e) v.reached;
  }
  Step-IsCounted {s} (finish (ok u) before behind e) v =
      let e' = length-split before behind (ended (ok u)) s.running e in
      further _ (v.succeeded + 1) v.failed v.refused
        (Concurrent.next (Concurrent.next v.reached (succeed e')) (release {n = 0} refl e'))
        (Concurrent.finish {n = 0} refl e') refl
  Step-IsCounted {s} (finish (err x) before behind e) v =
      let e' = length-split before behind (ended (err x)) s.running e in
      further _ v.succeeded (v.failed + 1) v.refused
        (Concurrent.next (Concurrent.next v.reached (fail e')) (release {n = 0} refl e'))
        (Concurrent.finish {n = 0} refl e') refl

  Reach-IsCounted : {s t : State} → Reach capacity s t → IsCounted s → IsCounted t
  Reach-IsCounted here v = v
  Reach-IsCounted (next r st) v = Step-IsCounted st (Reach-IsCounted r v)

-- For every state that tasks reach as they take turns between their calls, the step relation that only
-- counts goroutines reaches a state with as many waiting and executing tasks, the same error count and
-- the same cancellation, in which no caller has returned.
pub start-IsCounted :
    (capacity : ℕ) (tasks : List (Thread (Unit {0}))) (s : Log) {t : State}
    → Reach capacity (start tasks s) t
    → IsCounted capacity (Concurrent.start (length tasks)) t
start-IsCounted capacity tasks s r =
    Reach-IsCounted _ _ r
      (record { succeeded = 0; failed = 0; refused = 0; steps = 0; reached = Concurrent.here })
