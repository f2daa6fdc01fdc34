-- ===== src/Reconcile/Visibilities/Compare/Reconciled.antt =====
-- The visibilities of the platform after the changes of reconcileServiceVisibilities.
use mathlib.Core.List.{Memᴰ}
use service_broker_proxy.Prelude.{
  String, ◌≡◌, refl, sym, subst, ap, ◌∙◌, ◌⊎◌, inl, inr, Bool, true, false, List, [], ◌∷◌, arith,
  eq_refl, eq_iff, ◌==◌, All, Bool-cases,
}
use service_broker_proxy.Types.{Visibility}
use service_broker_proxy.Reconcile.Visibilities.Compare.{to_create, to_delete}
use service_broker_proxy.Reconcile.Visibilities.Compare.Laws.{
  has, has-deleted, has-ordered, to_delete_justified,
}

-- The platform has left what it had and was not deleted, and what was created.
abbrev pub IsLeft : (before deletes creates left : List Visibility) → Type 0
IsLeft before deletes creates left =
    (v : Visibility)
    → (Memᴰ v left → (Memᴰ v before × (Memᴰ v deletes → ⊥)) ⊎ Memᴰ v creates)
      × ((Memᴰ v before × (Memᴰ v deletes → ⊥)) ⊎ Memᴰ v creates → Memᴰ v left)

All-Memᴰ :
    (P : Visibility → Type 0) (v : Visibility) (vs : List Visibility) → All P vs → Memᴰ v vs → P v
All-Memᴰ P v [] h i = elim i [ ]
All-Memᴰ P v (x ∷ xs) (p, h) (Memᴰ.head e) = subst P (sym e) p
All-Memᴰ P v (x ∷ xs) (p, h) (Memᴰ.tail i) = All-Memᴰ P v xs h i

both : (a b : Bool) → (a ≡ true → b ≡ true) → (b ≡ true → a ≡ true) → a ≡ b
both true true f g = refl
both true false f g = sym (f refl)
both false true f g = g refl
both false false f g = refl

module _ (key : Visibility → String) where
  -- No two of the visibilities have the same key.
  abbrev pub AreDistinct : List Visibility → Type 0
  AreDistinct [] = Unit
  AreDistinct (v ∷ vs) = (has key (key v) vs ≡ false) × AreDistinct vs

  pub has-Memᴰ : (v : Visibility) (vs : List Visibility) → Memᴰ v vs → has key (key v) vs ≡ true
  unfolding has
  has-Memᴰ v [] i = elim i [ ]
  has-Memᴰ v (x ∷ xs) (Memᴰ.head e) = rw (ap key (sym e), eq_refl (key v)) refl
  has-Memᴰ v (x ∷ xs) (Memᴰ.tail i) = rw (has-Memᴰ v xs i) (ground arith)

  found :
      (k : String) (vs : List Visibility)
      → has key k vs ≡ true
      → (v : Visibility) × Memᴰ v vs × (key v ≡ k)
  unfolding has
  found k [] h = cc
  found k (x ∷ xs) h = elim (Bool-cases (key x == k)) [
    | inl e ↦ (x, Memᴰ.head refl, (eq_iff (key x) k).0 e)
    | inr e ↦ let (v, i, q) = found k xs (rw e at h) in (v, Memᴰ.tail i, q)
  ]

  one_of_key :
      (v w : Visibility) (vs : List Visibility)
      → AreDistinct vs
      → Memᴰ v vs
      → Memᴰ w vs
      → key v ≡ key w
      → v ≡ w
  one_of_key v w [] u i j e = elim i [ ]
  one_of_key v w (x ∷ xs) u (Memᴰ.head p) (Memᴰ.head q) e = p ∙ sym q
  one_of_key v w (x ∷ xs) (u, us) (Memᴰ.head p) (Memᴰ.tail j) e =
      let h = has-Memᴰ w xs j in
      let k : key w ≡ key x = sym e ∙ ap key p in
      let clash : true ≡ false = sym h ∙ ap (λ y. has key y xs) k ∙ u in cc
  one_of_key v w (x ∷ xs) (u, us) (Memᴰ.tail i) (Memᴰ.head q) e =
      let h = has-Memᴰ v xs i in
      let k : key v ≡ key x = e ∙ ap key q in
      let clash : true ≡ false = sym h ∙ ap (λ y. has key y xs) k ∙ u in cc
  one_of_key v w (x ∷ xs) (u, us) (Memᴰ.tail i) (Memᴰ.tail j) e = one_of_key v w xs us i j e

  module _ (before sm_vis left : List Visibility) (u : AreDistinct before)
      (l : IsLeft before (to_delete key before sm_vis) (to_create key before sm_vis) left) where
    -- A visibility with the key of a deleted one is that one.
    deleted :
        (v : Visibility)
        → Memᴰ v before
        → has key (key v) sm_vis ≡ false
        → Memᴰ v (to_delete key before sm_vis)
    deleted v i n =
        let b = has-Memᴰ v before i in
        let d : has key (key v) (to_delete key before sm_vis) ≡ true =
          has-deleted key before sm_vis (key v) ∙ rw (n, b) refl in
        let (w, j, e) = found (key v) _ d in
        let (k, m) = All-Memᴰ _ w _ (to_delete_justified key before sm_vis) j in
        subst (λ x. Memᴰ x (to_delete key before sm_vis)) (one_of_key w v before u k i e) j

    wanted : (v : Visibility) → Memᴰ v left → has key (key v) sm_vis ≡ true
    wanted v i = elim ((l v).0 i) [
      | inl (b, n) ↦ elim (Bool-cases (has key (key v) sm_vis)) [
        | inl e ↦ e
        | inr e ↦ absurd (n (deleted v b e))
      ]
      | inr c ↦ let h = has-Memᴰ v _ c in ground (arith, h, has-ordered key before sm_vis (key v))
    ]

    kept :
        (k : String) (v : Visibility)
        → has key k sm_vis ≡ true
        → Memᴰ v before
        → key v ≡ k
        → Memᴰ v left
    kept k v h i e = (l v).1 (
        inl (
          i,
          λ d.
              let x = All-Memᴰ _ v _ (to_delete_justified key before sm_vis) d in
              let clash : true ≡ false = sym h ∙ ap (λ y. has key y sm_vis) (sym e) ∙ x.1 in cc,
        ))

    has_left : (k : String) (v : Visibility) → Memᴰ v left → key v ≡ k → has key k left ≡ true
    has_left k v i e = ap (λ y. has key y left) (sym e) ∙ has-Memᴰ v left i

    supplied : (k : String) → has key k sm_vis ≡ true → has key k left ≡ true
    supplied k h = elim (Bool-cases (has key k before)) [
      | inl b ↦ let (v, i, e) = found k before b in has_left k v (kept k v h i e) e
      | inr b ↦
          let c : has key k (to_create key before sm_vis) ≡ true =
            ground (arith, b, h, has-ordered key before sm_vis k) in
          let (v, i, e) = found k _ c in has_left k v ((l v).1 (inr i)) e
    ]

    -- If no two visibilities of the platform have the same key, and the platform then has exactly
    -- those that it had and that the comparison does not delete, and those that it creates: the
    -- platform has a visibility with a key if and only if the Service Manager has one.
    pub has-reconciled : (k : String) → has key k left ≡ has key k sm_vis
    has-reconciled k =
        both _ _
          (λ h. let (v, i, e) = found k left h in ap (λ y. has key y sm_vis) (sym e) ∙ wanted v i)
          (supplied k)
