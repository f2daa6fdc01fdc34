-- ===== src/Exec/Keeps.antt =====
-- Invariants of the log: `Keeps P m` says that `m` leads from a log with `P` to a log with `P`, with
-- one rule for each way to build an action.
use service_broker_proxy.Prelude.{Bool, true, false, ◌∷◌, Option, none, some, if◌then◌else◌}
use service_broker_proxy.Types.{Error}
use service_broker_proxy.Exec.Calls.{Call}
use service_broker_proxy.Exec
use service_broker_proxy.Exec.{
  Log, Result, ok, err, Exec, pure, raise, lift, deref, perform, attempt, ◌>>=◌,
}

pub record Keeps {ℓ} {A : Type 0} (P : Log → Type ℓ) (m : Exec A) : Type ℓ where
  pub at : (s : Log) → P s → P (m s).1

module _ {ℓ} {P : Log → Type ℓ} {A : Type 0} where
  pub Keeps-pure : (a : A) → Keeps P (pure a)
  unfolding pure
  Keeps-pure a = record { at = λ s h. h }

  pub Keeps-raise : (e : Error) → Keeps P (raise {A = A} e)
  unfolding raise
  Keeps-raise e = record { at = λ s h. h }

  pub Keeps-lift : (r : Result A) → Keeps P (lift r)
  unfolding lift
  Keeps-lift r = record { at = λ s h. h }

  pub Keeps-deref : (o : Option A) → Keeps P (deref o)
  unfolding deref
  Keeps-deref none = record { at = λ s h. h }
  Keeps-deref (some a) = record { at = λ s h. h }

  pub Keeps-perform :
      (c : Call) (f : Log → Result A) → ((s : Log) → P s → P (c ∷ s)) → Keeps P (perform c f)
  unfolding perform
  Keeps-perform c f h = record { at = h }

  pub Keeps-attempt : (m : Exec A) → Keeps P m → Keeps P (attempt m)
  unfolding attempt
  Keeps-attempt m h = record { at = λ s p. h.at s p }

  pub Keeps-if : (b : Bool) (m n : Exec A) → Keeps P m → Keeps P n → Keeps P (if b then m else n)
  Keeps-if true m n hm hn = hm
  Keeps-if false m n hm hn = hn

module _ {ℓ} {P : Log → Type ℓ} {A B : Type 0} where
  Keeps-continue :
      (r : Result A) (f : A → Exec B) → ((a : A) → Keeps P (f a)) → Keeps P (Exec.continue r f)
  Keeps-continue (ok a) f h = h a
  Keeps-continue (err e) f h = record { at = λ s p. p }

  pub Keeps-bind :
      (m : Exec A) (f : A → Exec B) → Keeps P m → ((a : A) → Keeps P (f a)) → Keeps P (m >>= f)
  unfolding ◌>>=◌
  Keeps-bind m f hm hf = record { at = λ s p. (Keeps-continue (m s).0 f hf).at (m s).1 (hm.at s p) }

module _ {ℓ} {P : Log → Type ℓ} {A B : Type 0} where
  -- A test that does not depend on the value may be made first.
  pub Keeps-bind-if :
      (m : Exec A) (b : Bool) (f g : A → Exec B)
      → Keeps P (m >>= f)
      → Keeps P (m >>= g)
      → Keeps P (m >>= λ a. if b then f a else g a)
  Keeps-bind-if m true f g hf hg = hf
  Keeps-bind-if m false f g hf hg = hg

pub ruleset keeps_rules =
    (Keeps-pure, Keeps-raise, Keeps-lift, Keeps-deref, Keeps-attempt, Keeps-if, Keeps-bind)
