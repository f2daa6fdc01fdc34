-- ===== src/Reconcile/Visibilities/Met.antt =====
-- What the platform has, after the changes of a resync, for the visibilities of the Service Manager.
use mathlib.Core.List.{Memᴰ}
use mathlib.Core.List.Memᴰ as MemD
use service_broker_proxy.Prelude.{
  String, ◌≡◌, refl, sym, ap, ◌∙◌, subst, inl, inr, true, not, ◌&&◌, ◌||◌, some, List, [], ◌∷◌, map,
  eq_refl, arith,
}
use service_broker_proxy.Prelude.Dict.{Dict, lookup}
use service_broker_proxy.Types.{SmVisibility, Visibility}
use service_broker_proxy.Reconcile.Job.{ResyncJob}
use service_broker_proxy.Reconcile.Visibilities.{
  BrokerPlan, public_visibility, scoped_visibility, convert_sm_visibility, convert_known,
  convert_all,
}
use service_broker_proxy.Reconcile.Visibilities.Compare.{to_create, to_delete}
use service_broker_proxy.Reconcile.Visibilities.Compare.Laws.{has, has-ordered}
use service_broker_proxy.Reconcile.Visibilities.Demand.{StandsFor, public_of, scoped_of}

Memᴰ-map : {A B : Type 0} (f : A → B) (a : A) (xs : List A) → Memᴰ a xs → Memᴰ (f a) (map f xs)
Memᴰ-map f a [] i = elim i [ ]
Memᴰ-map f a (x ∷ xs) (Memᴰ.head e) = Memᴰ.head (ap f e)
Memᴰ-map f a (x ∷ xs) (Memᴰ.tail i) = Memᴰ.tail (Memᴰ-map f a xs i)

has-Memᴰ :
    (key : Visibility → String) (x : Visibility) (xs : List Visibility)
    → Memᴰ x xs
    → has key (key x) xs ≡ true
unfolding has
has-Memᴰ key x [] i = elim i [ ]
has-Memᴰ key x (y ∷ ys) (Memᴰ.head e) = rw (ap key (sym e), eq_refl (key x)) refl
has-Memᴰ key x (y ∷ ys) (Memᴰ.tail i) = rw (has-Memᴰ key x ys i) (ground arith)

module _ (r : ResyncJob) where
  convert_sm_visibility-Memᴰ :
      (v : SmVisibility) (p : BrokerPlan) (x : Visibility)
      → StandsFor r v p x
      → Memᴰ x (convert_sm_visibility r v p)
  unfolding convert_sm_visibility public_visibility scoped_visibility
  convert_sm_visibility-Memᴰ v p x (inl (e, q)) = rw (public_of r v e) (Memᴰ.head q)
  convert_sm_visibility-Memᴰ v p x (inr (e, (scope, i, q))) =
      rw (scoped_of r v scope e i) (MemD.cast q (Memᴰ-map (scoped_visibility r p) scope _ i))

  convert_all-Memᴰ :
      (plans : Dict BrokerPlan) (vs : List SmVisibility) (v : SmVisibility) (p : BrokerPlan)
      (x : Visibility)
      → Memᴰ v vs
      → lookup v.service_plan_id plans ≡ some p
      → StandsFor r v p x
      → Memᴰ x (convert_all r plans vs)
  unfolding convert_all convert_known
  convert_all-Memᴰ plans [] v p x i e s = elim i [ ]
  convert_all-Memᴰ plans (y ∷ ys) v p x (Memᴰ.head q) e s = MemD.append_left _ (
      subst (λ z. Memᴰ x (convert_known r z (lookup z.service_plan_id plans))) q
        (rw e (convert_sm_visibility-Memᴰ v p x s)))
  convert_all-Memᴰ plans (y ∷ ys) v p x (Memᴰ.tail i) e s =
      MemD.append_right _ (convert_all-Memᴰ plans ys v p x i e s)

  -- Whatever visibilities the platform had, after the deletions and creations that the comparison orders
  -- it has one with the key of each visibility that stands for one of the Service Manager with a known
  -- plan.
  pub demand_met :
      (key : Visibility → String) (platform_vis : List Visibility) (plans : Dict BrokerPlan)
      (vs : List SmVisibility) (v : SmVisibility) (p : BrokerPlan) (x : Visibility)
      → Memᴰ v vs
      → lookup v.service_plan_id plans ≡ some p
      → StandsFor r v p x
      → ((has key (key x) platform_vis
            && not (has key (key x) (to_delete key platform_vis (convert_all r plans vs))))
          || has key (key x) (to_create key platform_vis (convert_all r plans vs)))
        ≡ true
  demand_met key platform_vis plans vs v p x i e s =
      has-ordered key platform_vis _ (key x)
      ∙ has-Memᴰ key x _ (convert_all-Memᴰ plans vs v p x i e s)
