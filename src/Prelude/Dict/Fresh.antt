-- ===== src/Prelude/Dict/Fresh.antt =====
-- Keys that a map does not have.
use Prim.Native.String.{String}
use mathlib.Core.Path.{◌≡◌, refl, ap}
use mathlib.Core.Logic.{◌≢◌}
use mathlib.Core.Bool.{false}
use mathlib.Core.Option.{none, some}
use mathlib.Core.List.{[], ◌∷◌, ◌++◌}
use native.Mathlib.Omega.{arith}
use text.Mathlib.Text.{◌==◌}
use text.Mathlib.TextPositions.{eq_refl}
use service_broker_proxy.Prelude.Tests.{test_of_ne}
use service_broker_proxy.Prelude.Dict.{Dict, lookup, insert, erase}

module _ {ℓ} {V : Type ℓ} where
  abbrev pub IsFresh : String → Dict V → Type ℓ
  IsFresh k m = lookup k m ≡ none

  IsFresh-head : (k j : String) (w : V) (m : Dict V) → IsFresh k ((j, w) ∷ m) → (j == k) ≡ false
  unfolding lookup
  IsFresh-head k j w m h = ground arith

  IsFresh-tail : (k j : String) (w : V) (m : Dict V) → IsFresh k ((j, w) ∷ m) → IsFresh k m
  unfolding lookup
  IsFresh-tail k j w m h = ground arith

  -- A new key goes to the end.
  pub insert-IsFresh :
      (k : String) (v : V) (m : Dict V) → IsFresh k m → insert k v m ≡ m ++ (k, v) ∷ []
  unfolding insert
  insert-IsFresh k v [] h = refl
  insert-IsFresh k v ((j, w) ∷ m) h =
      rw (IsFresh-head k j w m h)
        (ap (λ l. (j, w) ∷ l) (insert-IsFresh k v m (IsFresh-tail k j w m h)))

  pub erase-IsFresh : (k : String) (m : Dict V) → IsFresh k m → erase k m ≡ m
  unfolding erase
  erase-IsFresh k [] h = refl
  erase-IsFresh k ((j, w) ∷ m) h =
      rw (IsFresh-head k j w m h)
        (ap (λ l. (j, w) ∷ l) (erase-IsFresh k m (IsFresh-tail k j w m h)))

  pub IsFresh-append :
      (k j : String) (v : V) (m : Dict V) → IsFresh k m → j ≢ k → IsFresh k (m ++ (j, v) ∷ [])
  unfolding lookup
  IsFresh-append k j v [] h n = rw (test_of_ne j k n)
  IsFresh-append k j v ((i, w) ∷ m) h n =
      rw (IsFresh-head k i w m h) (IsFresh-append k j v m (IsFresh-tail k i w m h) n)

  -- The first entry of a map whose key the others do not have.
  pub lookup-head : (k : String) (v : V) (m : Dict V) → lookup k ((k, v) ∷ m) ≡ some v
  unfolding lookup
  lookup-head k v m = rw (eq_refl k)

  pub erase-head : (k : String) (v : V) (m : Dict V) → IsFresh k m → erase k ((k, v) ∷ m) ≡ m
  unfolding erase
  erase-head k v m h = rw (eq_refl k) (erase-IsFresh k m h)
