-- ===== src/Prelude/Dict/Entries.antt =====
-- Predicates that hold of every entry of a map.
use Prim.Native.String.{String}
use mathlib.Core.Path.{◌≡◌, subst, sym}
use mathlib.Core.Logic.{◌≢◌, inl, inr}
use mathlib.Core.Option.{some, some-injective}
use mathlib.Core.List.{[], ◌∷◌}
use native.Mathlib.Omega.{arith}
use text.Mathlib.Text.{◌==◌}
use text.Mathlib.TextEquality.{eq_iff}
use service_broker_proxy.Prelude.Tests.{Bool-cases, ne_of_test}
use service_broker_proxy.Prelude.Lists.{All}
use service_broker_proxy.Prelude.Dict.{Dict, lookup, insert, erase, values}

abbrev pub Entries {ℓ κ} : {V : Type ℓ} → (String → V → Type κ) → Dict V → Type κ
Entries P [] = Unit
Entries P ((k, v) ∷ m) = P k v × Entries P m

module _ {ℓ κ} {V : Type ℓ} (P : String → V → Type κ) where
  pub Entries-insert :
      (k : String) (v : V) (m : Dict V) → P k v → Entries P m → Entries P (insert k v m)
  unfolding insert
  Entries-insert k v [] p h = (p, tt)
  Entries-insert k v ((j, w) ∷ m) p h = elim (Bool-cases (j == k)) [
    | inl e ↦ rw e (p, h.1)
    | inr e ↦ rw e (h.0, Entries-insert k v m p h.1)
  ]

  -- What is left after `delete(m, k)` has another key.
  pub Entries-erase :
      (k : String) (m : Dict V) → Entries P m → Entries (λ j v. P j v × (k ≢ j)) (erase k m)
  unfolding erase
  Entries-erase k [] h = tt
  Entries-erase k ((j, w) ∷ m) h = elim (Bool-cases (j == k)) [
    | inl e ↦ rw e (Entries-erase k m h.1)
    | inr e ↦ rw e ((h.0, λ p. ne_of_test j k e (sym p)), Entries-erase k m h.1)
  ]

  pub Entries-lookup : (k : String) (m : Dict V) {v : V} → Entries P m → lookup k m ≡ some v → P k v
  unfolding lookup
  Entries-lookup k [] h found = ground arith
  Entries-lookup k ((j, w) ∷ m) {v} h found = elim (Bool-cases (j == k)) [
    | inl e ↦
        subst (λ x. P x v) ((eq_iff j k).0 e) (subst (P j) (some-injective w v (rw e at found)) h.0)
    | inr e ↦ Entries-lookup k m h.1 (rw e at found)
  ]

module _ {ℓ κ μ} {V : Type ℓ} {P : String → V → Type κ} where
  pub Entries-map :
      {Q : String → V → Type μ}
      → ((k : String) (v : V) → P k v → Q k v)
      → (m : Dict V) → Entries P m
      → Entries Q m
  Entries-map f [] h = tt
  Entries-map f ((k, v) ∷ m) h = (f k v h.0, Entries-map f m h.1)

  pub Entries-values :
      {Q : V → Type μ}
      → ((k : String) (v : V) → P k v → Q v)
      → (m : Dict V) → Entries P m
      → All Q (values m)
  unfolding values
  Entries-values f [] h = tt
  Entries-values f ((k, v) ∷ m) h = (f k v h.0, Entries-values f m h.1)
