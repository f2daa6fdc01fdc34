-- ===== src/Reconcile/Scheduler/Threads/Guarded.antt =====
-- Invariants of the log under every interleaving of the tasks of task_scheduler.go.
use service_broker_proxy.Prelude.{
  ℕ, Bool, true, false, ◌≡◌, refl, subst, if◌then◌else◌, List, ◌∷◌, ◌++◌, [], All, All-append,
  All-split,
}
use service_broker_proxy.Exec.{Log, Result, ok, err}
use service_broker_proxy.Exec.Calls.{Call}
use service_broker_proxy.Exec.Extensions.{Later, same, more, Later-trans}
use service_broker_proxy.Exec.Threads.{Thread, ended, calling, ask, ◌>>=◌}
use service_broker_proxy.Reconcile.Scheduler.Threads.{
  State, start, Step, cancel, schedule, refuse, call, finish, Reach, here, next,
}

-- The value of a thread that has ended without an error.
abbrev pub Returns : {A : Type 0} → (Log → A → Type 0) → Log → Result A → Type 0
Returns Q s (ok a) = Q s a
Returns Q s (err e) = Unit

pub Returns-intro :
    {A : Type 0} (Q : Log → A → Type 0) (s : Log) (r : Result A)
    → ((a : A) → r ≡ ok a → Q s a)
    → Returns Q s r
Returns-intro Q s (ok a) h = h a refl
Returns-intro Q s (err e) h = tt

-- From a log on, every call of the thread keeps `P`, whatever calls others make between, and what it
-- returns satisfies `Q`.
abbrev pub Ensures : {A : Type 0} → (Log → Type 0) → (Log → A → Type 0) → Log → Thread A → Type 0
Ensures P Q s (ended r) = Returns Q s r
Ensures P Q s (calling c k) = (t : Log) → Later s t → P t → P (c ∷ t) × Ensures P Q (c ∷ t) (k t)

abbrev pub Guarded : (Log → Type 0) → Log → Thread (Unit {0}) → Type 0
Guarded P = Ensures P (λ s u. Unit)

module _ {A : Type 0} (P : Log → Type 0) (Q : Log → A → Type 0) where
  -- One call.
  pub Ensures-ask :
      (c : Call) (answer : Log → Result A) (s : Log)
      → ((t : Log) → P t → P (c ∷ t) × Returns Q (c ∷ t) (answer t))
      → Ensures P Q s (ask c answer)
  Ensures-ask c answer s h = λ t l p. h t p

  pub Ensures-if :
      (b : Bool) (m n : Thread A) (s : Log)
      → Ensures P Q s m
      → Ensures P Q s n
      → Ensures P Q s (if b then m else n)
  Ensures-if true m n s hm hn = hm
  Ensures-if false m n s hm hn = hn

module _ {A B : Type 0} (P : Log → Type 0) (Q : Log → A → Type 0) (R : Log → B → Type 0) where
  -- One thread after the other.
  pub Ensures-bind :
      (m : Thread A) (f : A → Thread B) (s : Log)
      → Ensures P Q s m
      → ((t : Log) (a : A) → Later s t → Q t a → Ensures P R t (f a))
      → Ensures P R s (m >>= f)
  unfolding ◌>>=◌
  Ensures-bind (ended (ok a)) f s h g = g s a same h
  Ensures-bind (ended (err e)) f s h g = tt
  Ensures-bind (calling c k) f s h g = λ t l p.
      let (p', h') = h t l p in
      (
        p',
        Ensures-bind (k t) f (c ∷ t) h'
            (λ u a m q. g u a (Later-trans (Later-trans l (more c same)) m) q),
      )

module _ (P : Log → Type 0) where
  Guarded-Later : (m : Thread (Unit {0})) {s t : Log} → Later s t → Guarded P s m → Guarded P t m
  Guarded-Later (ended (ok u)) l g = tt
  Guarded-Later (ended (err e)) l g = tt
  Guarded-Later (calling c k) l g = λ u m p. g u (Later-trans l m) p

  abbrev GuardedAll : List (Thread (Unit {0})) → Log → Type 0
  GuardedAll ts s = All (Guarded P s) ts

  GuardedAll-Later :
      (ts : List (Thread (Unit {0}))) {s t : Log} → Later s t → GuardedAll ts s → GuardedAll ts t
  GuardedAll-Later [] l g = tt
  GuardedAll-Later (m ∷ ms) l g = (Guarded-Later m l g.0, GuardedAll-Later ms l g.1)

  -- The predicate holds, and all tasks that are left keep it.
  pub record IsGuarded (s : State) : Type 0 where
    pub holds : P s.log
    pub waiting_guarded : GuardedAll s.waiting s.log
    pub running_guarded : GuardedAll s.running s.log

  schedule-IsGuarded :
      {s : State} {t : Thread (Unit {0})} {ts : List (Thread (Unit {0}))}
      → IsGuarded s
      → s.waiting ≡ t ∷ ts
      → IsGuarded (record s { waiting = ts; running = t ∷ s.running })
  schedule-IsGuarded {s} g e =
      let (h, hs) = subst (λ ts. GuardedAll ts s.log) e g.waiting_guarded in
      record { holds = g.holds; waiting_guarded = hs; running_guarded = (h, g.running_guarded) }

  refuse-IsGuarded :
      {s : State} {t : Thread (Unit {0})} {ts : List (Thread (Unit {0}))}
      → IsGuarded s
      → s.waiting ≡ t ∷ ts
      → IsGuarded (record s { waiting = ts })
  refuse-IsGuarded {s} g e =
      let (h, hs) = subst (λ ts. GuardedAll ts s.log) e g.waiting_guarded in
      record { holds = g.holds; waiting_guarded = hs; running_guarded = g.running_guarded }

  module _ (before behind : List (Thread (Unit {0}))) where
    call-IsGuarded :
        {s : State} {c : Call} (k : Log → Thread (Unit {0}))
        → IsGuarded s
        → s.running ≡ before ++ calling c k ∷ behind
        → IsGuarded (record s { running = before ++ k s.log ∷ behind; log = c ∷ s.log })
    call-IsGuarded {s} {c} k g e =
        let (hb, h, hs) =
          All-split (Guarded P s.log) before (calling c k) behind
            (subst (λ ts. GuardedAll ts s.log) e g.running_guarded) in
        let (p, h') = h s.log same g.holds in
        let l : Later s.log (c ∷ s.log) = more c same in
        record {
          holds = p;
          waiting_guarded = GuardedAll-Later s.waiting l g.waiting_guarded;
          running_guarded =
              All-append _ before _ (GuardedAll-Later before l hb)
                (h', GuardedAll-Later behind l hs);
        }

    finish-IsGuarded :
        {s : State} {n : ℕ} (r : Result (Unit {0}))
        → IsGuarded s
        → s.running ≡ before ++ ended r ∷ behind
        → IsGuarded (record s { running = before ++ behind; error_count = n })
    finish-IsGuarded {s} r g e =
        let (hb, h, hs) =
          All-split (Guarded P s.log) before (ended r) behind
            (subst (λ ts. GuardedAll ts s.log) e g.running_guarded) in
        record {
          holds = g.holds;
          waiting_guarded = g.waiting_guarded;
          running_guarded = All-append _ before _ hb hs;
        }

  Step-IsGuarded : (capacity : ℕ) {s t : State} → Step capacity s t → IsGuarded s → IsGuarded t
  Step-IsGuarded capacity (cancel e) g = record {
    holds = g.holds;
    waiting_guarded = g.waiting_guarded;
    running_guarded = g.running_guarded;
  }
  Step-IsGuarded capacity (schedule e h) g = schedule-IsGuarded g e
  Step-IsGuarded capacity (refuse e h) g = refuse-IsGuarded g e
  Step-IsGuarded capacity (call k before behind e) g = call-IsGuarded before behind k g e
  Step-IsGuarded capacity (finish r before behind e) g = finish-IsGuarded before behind r g e

  Reach-IsGuarded : (capacity : ℕ) {s t : State} → IsGuarded s → Reach capacity s t → IsGuarded t
  Reach-IsGuarded capacity g here = g
  Reach-IsGuarded capacity g (next r st) = Step-IsGuarded capacity st (Reach-IsGuarded capacity g r)

  -- Tasks that keep the predicate by themselves keep it together, in whatever order they take turns,
  -- also if the context is cancelled on the way.
  pub Reach-keeps :
      (capacity : ℕ) (tasks : List (Thread (Unit {0}))) (s : Log) {t : State}
      → P s
      → All (Guarded P s) tasks
      → Reach capacity (start tasks s) t
      → P t.log
  Reach-keeps capacity tasks s p g r =
      (Reach-IsGuarded capacity (record { holds = p; waiting_guarded = g; running_guarded = tt })
        r).holds
