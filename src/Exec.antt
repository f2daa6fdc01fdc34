-- ===== src/Exec.antt =====
-- How code that calls the platform and the Service Manager is modelled: an action reads and extends
-- the log of the calls made so far, newest first, and returns a value or an error. Calls that were
-- made before an error stay in the log.
pub mod Calls
pub mod Keeps
pub mod Threads
pub mod Extensions
use service_broker_proxy.Prelude.{Option, none, some, List, ◌∷◌}
use service_broker_proxy.Types.{Error, nil_pointer}
use service_broker_proxy.Exec.Calls.{Call}

-- A Go pair `(value, err)` of which the code reads the value only if `err` is nil.
pub data Result {ℓ} (A : Type ℓ) : Type ℓ where
  ok : A → Result A
  err : Error → Result A

-- The code after `if err != nil { return …, err }`.
abbrev pub and_then {ℓ κ} : {A : Type ℓ} {B : Type κ} → Result A → (A → Result B) → Result B
and_then (ok a) f = f a
and_then (err e) f = err e

abbrev pub Log : Type 0
Log = List Call

abbrev pub Exec : Type 0 → Type 0
Exec A = Log → Result A × Log

module _ {A : Type 0} where
  pub pure : A → Exec A
  pure a s = (ok a, s)

  pub raise : Error → Exec A
  raise e s = (err e, s)

  pub lift : Result A → Exec A
  lift r s = (r, s)

  -- Reading through a pointer; a nil one panics.
  pub deref : Option A → Exec A
  deref none s = (err nil_pointer, s)
  deref (some a) s = (ok a, s)

  -- One call of a client. The answer may depend on all calls made before.
  pub perform : Call → (Log → Result A) → Exec A
  perform c answer s = (answer s, c ∷ s)

  -- The code goes on whether the action fails or not.
  pub attempt : Exec A → Exec (Result A)
  attempt m s = let (r, s') = m s in (ok r, s')

module _ {A B : Type 0} where
  abbrev pub continue : Result A → (A → Exec B) → Exec B
  continue (ok a) f s = f a s
  continue (err e) f s = (err e, s)

  infixl 10 ◌>>=◌ ◌>>◌
  -- Opening this opens the actions above too.
  unfoldable pub ◌>>=◌ : Exec A → (A → Exec B) → Exec B
  unfolding pure raise lift deref perform attempt
  ◌>>=◌ m f s = let (r, s') = m s in continue r f s'

  abbrev pub ◌>>◌ : Exec A → Exec B → Exec B
  m >> n = m >>= λ _. n
