-- ===== src/Reconcile/Visibilities/Compare/Laws.antt =====
-- The comparison of reconcileServiceVisibilities, seen through the keys of the visibilities.
use mathlib.Core.List.{Memᴰ}
use service_broker_proxy.Prelude.{
  String, ◌≡◌, refl, ◌∙◌, ◌≢◌, Bool, true, false, not, ◌&&◌, ◌||◌, Option, none, some, List, [],
  ◌∷◌, ◌++◌, arith, ◌==◌, eq_iff, eq_refl, All, test_of_ne, if◌then◌else◌,
}
use service_broker_proxy.Prelude.Dict.{
  Dict, lookup, insert, erase, values, lookup-insert, lookup-erase,
}
use service_broker_proxy.Prelude.Dict.Entries.{
  Entries, Entries-insert, Entries-erase, Entries-map, Entries-values,
}
use service_broker_proxy.Types.{Visibility}
use service_broker_proxy.Reconcile.Visibilities.Compare.{
  vis_map, create_if_missing, compare_loop, to_create, to_delete,
}

abbrev pub is_some {ℓ} : {A : Type ℓ} → Option A → Bool
is_some none = false
is_some (some a) = true

module _ (key : Visibility → String) where
  -- A visibility of the list has the key.
  unfoldable pub has : String → List Visibility → Bool
  has k [] = false
  has k (v ∷ vs) = key v == k || has k vs

  pub is_some-vis_map :
      (k : String) (vs : List Visibility) (m : Dict Visibility)
      → is_some (lookup k (vis_map key vs m)) ≡ (has k vs || is_some (lookup k m))
  unfolding vis_map has
  is_some-vis_map k [] m = refl
  is_some-vis_map k (v ∷ vs) m =
      is_some-vis_map k vs (insert (key v) v m) ∙ rw lookup-insert (ground arith)

  abbrev IsKeyed : Dict Visibility → Type 0
  IsKeyed = Entries (λ k v. key v ≡ k)

  vis_map-IsKeyed :
      (vs : List Visibility) (m : Dict Visibility) → IsKeyed m → IsKeyed (vis_map key vs m)
  unfolding vis_map
  vis_map-IsKeyed [] m h = h
  vis_map-IsKeyed (v ∷ vs) m h = vis_map-IsKeyed vs _ (Entries-insert _ (key v) v m refl h)

  has-values :
      (k : String) (m : Dict Visibility) → IsKeyed m → has k (values m) ≡ is_some (lookup k m)
  unfolding has values lookup
  has-values k [] h = refl
  has-values k ((j, v) ∷ m) (e, h) = rw (e, has-values k m h) (ground arith)

  lookup-left :
      (k : String) (sm_vis : List Visibility) (m : Dict Visibility)
      → lookup k (compare_loop key sm_vis m).1 ≡ (if has k sm_vis then none else lookup k m)
  unfolding compare_loop has
  lookup-left k [] m = refl
  lookup-left k (v ∷ vs) m = lookup-left k vs (erase (key v) m) ∙ rw lookup-erase (ground arith)

  has-create_if_missing :
      (k : String) (v : Visibility) (o : Option Visibility) (rest : List Visibility)
      → has k (create_if_missing key v o rest) ≡ ((not (is_some o) && key v == k) || has k rest)
  unfolding create_if_missing has
  has-create_if_missing k v none rest = refl
  has-create_if_missing k v (some x) rest = refl

  -- A key is created or was there, if and only if the Service Manager has it.
  has-created :
      (k : String) (sm_vis : List Visibility) (m : Dict Visibility)
      → ((is_some (lookup k m) && has k sm_vis) || has k (compare_loop key sm_vis m).0)
        ≡ has k sm_vis
  unfolding compare_loop has
  has-created k [] m = ground arith
  has-created k (v ∷ vs) m = rw has-create_if_missing (
      ground
        (arith, has-created k vs (erase (key v) m), lookup-erase (key v) k m, eq_iff (key v) k))

  Entries-left :
      (sm_vis : List Visibility) (P : String → Visibility → Type 0) (m : Dict Visibility)
      → Entries P m
      → Entries (λ k v. P k v × (has k sm_vis ≡ false)) (compare_loop key sm_vis m).1
  unfolding compare_loop has
  Entries-left [] P m h =
      Entries-map {P = P} {Q = λ k v. P k v × (false ≡ false)} (λ k v p. (p, refl)) m h
  Entries-left (v ∷ vs) P m h =
      Entries-map {P = λ k x. (P k x × (key v ≢ k)) × (has k vs ≡ false)}
        {Q = λ k x. P k x × (has k (v ∷ vs) ≡ false)}
        (λ k x h. (h.0.0, rw (test_of_ne (key v) k h.0.1) h.1)) _
        (Entries-left vs _ (erase (key v) m) (Entries-erase P (key v) m h))

  -- What is left of the platform's map, as the list that is deleted.
  pub has-deleted :
      (platform_vis sm_vis : List Visibility) (k : String)
      → has k (to_delete key platform_vis sm_vis) ≡ (not (has k sm_vis) && has k platform_vis)
  unfolding to_delete lookup
  has-deleted platform_vis sm_vis k =
      has-values k _ (
        Entries-map (λ j v p. p.0) _ (Entries-left sm_vis _ _ (vis_map-IsKeyed platform_vis [] tt)))
      ∙ rw lookup-left (ground (arith, is_some-vis_map k platform_vis []))

  -- A key that the platform has and that is not deleted, or that is created, is one of the Service
  -- Manager's, and the other way round.
  pub has-ordered :
      (platform_vis sm_vis : List Visibility) (k : String)
      → ((has k platform_vis && not (has k (to_delete key platform_vis sm_vis)))
          || has k (to_create key platform_vis sm_vis))
        ≡ has k sm_vis
  unfolding to_create lookup
  has-ordered platform_vis sm_vis k = rw has-deleted (
      ground (
        arith,
        is_some-vis_map k platform_vis [],
        has-created k sm_vis (vis_map key platform_vis []),
      ))

  vis_map-Memᴰ :
      (vs : List Visibility) (m : Dict Visibility) (all : List Visibility)
      → ((v : Visibility) → Memᴰ v vs → Memᴰ v all)
      → Entries (λ k v. Memᴰ v all × (key v ≡ k)) m
      → Entries (λ k v. Memᴰ v all × (key v ≡ k)) (vis_map key vs m)
  unfolding vis_map
  vis_map-Memᴰ [] m all f h = h
  vis_map-Memᴰ (v ∷ vs) m all f h =
      vis_map-Memᴰ vs _ all (λ x i. f x (Memᴰ.tail i))
        (Entries-insert _ (key v) v m (f v (Memᴰ.head refl), refl) h)

  -- Only visibilities that the platform reported are deleted, and none whose key the Service Manager
  -- has.
  pub to_delete_justified :
      (platform_vis sm_vis : List Visibility)
      → All
          (λ v. Memᴰ v platform_vis × (has (key v) sm_vis ≡ false))
          (to_delete key platform_vis sm_vis)
  unfolding to_delete
  to_delete_justified platform_vis sm_vis =
      Entries-values (λ k v ((i, e), h). (i, rw e h)) _
        (Entries-left sm_vis _ _ (vis_map-Memᴰ platform_vis [] platform_vis (λ v i. i) tt))

  ends_with_second :
      (o : Option Visibility) (v w : Visibility)
      → (creates : List Visibility) × (create_if_missing key v o (w ∷ []) ≡ creates ++ w ∷ [])
  unfolding create_if_missing
  ends_with_second none v w = (v ∷ [], refl)
  ends_with_second (some x) v w = ([], refl)

  -- Whatever the platform has, if two visibilities of the Service Manager have the same key, the second
  -- is to be created.
  pub second_is_created :
      (platform_vis : List Visibility) (v w : Visibility)
      → key v ≡ key w
      → (creates : List Visibility) × (to_create key platform_vis (v ∷ w ∷ []) ≡ creates ++ w ∷ [])
  unfolding to_create compare_loop create_if_missing
  second_is_created platform_vis v w e =
      rw (lookup-erase (key v) (key w) (vis_map key platform_vis []), e, eq_refl (key w))
        (ends_with_second _ v w)
