-- ===== src/Reconcile/Visibilities/Chunks/Laws.antt =====
-- getBrokerChunks of reconcile_visibilities.go, for positive sizes.
use mathlib.Core.List.{flatten}
use service_broker_proxy.Prelude.{
  ℕ, zero, suc, ◌≤◌, ◌<◌, ◌≡◌, refl, ap, some, List, [], ◌∷◌, arith, length, take, drop,
  length-drop, length-take-le, take-append-drop, All,
}
use service_broker_proxy.Prelude.Int.{pos}
use service_broker_proxy.Reconcile.Visibilities.Chunks.{chunk_loop, get_broker_chunks}

-- A chunk is not empty and not longer than the size.
abbrev pub IsChunk {ℓ} : {A : Type ℓ} → ℕ → List A → Type 0
IsChunk size chunk = (0 < length chunk) × (length chunk ≤ size)

-- The chunks together are the list, in its order.
abbrev pub AreChunks {ℓ} : {A : Type ℓ} → ℕ → List A → List (List A) → Type ℓ
AreChunks size bs chunks = (flatten chunks ≡ bs) × All (IsChunk size) chunks

module _ {ℓ} {A : Type ℓ} where
  chunk_loop-cons :
      (fuel k : ℕ) (b : A) (bs : List A) {chunks : List (List A)}
      → chunk_loop fuel (suc k) (drop k bs) ≡ some chunks
      → chunk_loop (suc fuel) (suc k) (b ∷ bs) ≡ some ((b ∷ take k bs) ∷ chunks)
  unfolding chunk_loop
  chunk_loop-cons fuel k b bs e = ground arith

  chunk_loop-AreChunks :
      (fuel k : ℕ) (bs : List A)
      → length bs ≤ fuel
      → (chunks : List (List A)) × (chunk_loop fuel (suc k) bs ≡ some chunks)
        × AreChunks (suc k) bs chunks
  unfolding chunk_loop flatten
  chunk_loop-AreChunks fuel k [] h = ([], refl, (refl, tt))
  chunk_loop-AreChunks zero k (b ∷ bs) h = absurd (omega arith)
  chunk_loop-AreChunks (suc fuel) k (b ∷ bs) h =
      let (chunks, e, (together, sized)) =
        chunk_loop-AreChunks fuel k (drop k bs) (omega (arith, length-drop k bs)) in
      (
        (b ∷ take k bs) ∷ chunks,
        chunk_loop-cons fuel k b bs e,
        (
          rw together (ap (λ r. b ∷ r) (take-append-drop k bs)),
          ((omega arith, omega (arith, length-take-le k bs)), sized),
        ),
      )

  -- For every positive size the brokers are split into non-empty chunks of at most that size, which
  -- together are the brokers in their order.
  pub get_broker_chunks-AreChunks :
      (bs : List A) (k : ℕ)
      → (chunks : List (List A)) × (get_broker_chunks bs (pos (suc k)) ≡ some chunks)
        × AreChunks (suc k) bs chunks
  unfolding get_broker_chunks
  get_broker_chunks-AreChunks bs k = chunk_loop-AreChunks (length bs) k bs (omega arith)
