-- ===== src/Reconcile/Scheduler/Threads/Steady.antt =====
-- Threads whose calls keep an invariant of the log, whatever the answers are.
use service_broker_proxy.Prelude.{Bool, true, false, ◌∷◌, if◌then◌else◌}
use service_broker_proxy.Exec.{Log, Result, ok, err}
use service_broker_proxy.Exec.Calls.{Call}
use service_broker_proxy.Exec.Threads.{Thread, ended, ask, ◌>>=◌}
use service_broker_proxy.Reconcile.Scheduler.Threads.Guarded.{Ensures, Ensures-bind}

pub record Steady {A : Type 0} (P : Log → Type 0) (m : Thread A) : Type 0 where
  pub at : (s : Log) → Ensures P (λ t a. Unit) s m

module _ {P : Log → Type 0} {A : Type 0} where
  pub Steady-ended : (r : Result A) → Steady P (ended r)
  Steady-ended (ok a) = record { at = λ s. tt }
  Steady-ended (err e) = record { at = λ s. tt }

  pub Steady-ask :
      (c : Call) (answer : Log → Result A) → ((t : Log) → P t → P (c ∷ t)) → Steady P (ask c answer)
  Steady-ask c answer h = record { at = λ s t l p. (h t p, (Steady-ended (answer t)).at (c ∷ t)) }

  pub Steady-if :
      (b : Bool) (m n : Thread A) → Steady P m → Steady P n → Steady P (if b then m else n)
  Steady-if true m n hm hn = hm
  Steady-if false m n hm hn = hn

module _ {P : Log → Type 0} {A B : Type 0} where
  pub Steady-bind :
      (m : Thread A) (f : A → Thread B)
      → Steady P m
      → ((a : A) → Steady P (f a))
      → Steady P (m >>= f)
  Steady-bind m f hm hf = record {
    at = λ s. Ensures-bind P (λ t a. Unit) (λ t b. Unit) m f s (hm.at s) (λ t a l q. (hf a).at t);
  }

pub ruleset steady_rules = (Steady-ended, Steady-if, Steady-bind)
