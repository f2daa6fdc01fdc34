-- ===== src/Reconcile/Visibilities/Demand.antt =====
-- The visibilities that a resync creates, and what the Service Manager has for them.
use mathlib.Core.List.{Memᴰ}
use service_broker_proxy.Prelude.{
  String, ◌≡◌, refl, ◌⊎◌, inl, inr, true, false, Option, none, some, List, [], ◌∷◌, map, All,
  All-append, All-if, All-map, ◌≢◌, ◌==◌, arith, eq_iff, test_of_ne, Bool-cases,
}
use service_broker_proxy.Prelude.Dict.{Dict}
use service_broker_proxy.Prelude.Dict.Entries.{Entries, Entries-lookup}
use service_broker_proxy.Types.{
  ServiceBroker, SmVisibility, ServicePlan, ServiceOffering, Visibility,
}
use service_broker_proxy.Utils.{values_of}
use service_broker_proxy.Reconcile.Job.{ResyncJob, proxy_name}
use service_broker_proxy.Reconcile.Visibilities.{
  BrokerPlan, is_nil, offering_map, sm_broker_plans, should_be_public, public_visibility,
  scoped_visibility, convert_sm_visibility, convert_known, convert_all,
}
use service_broker_proxy.Reconcile.Visibilities.Plans.{IsPlan, sm_broker_plans-Entries}
use service_broker_proxy.Reconcile.Visibilities.Compare.{create_if_missing, compare_loop, to_create}

module _ (r : ResyncJob) where
  -- The visibility stands for one of the Service Manager and a plan: for everyone if that one has no
  -- platform or no scope, and otherwise for one of its scopes.
  abbrev pub StandsFor : SmVisibility → BrokerPlan → Visibility → Type 0
  StandsFor v p x =
      (((v.platform_id ≡ "") ⊎ (values_of r.visibility_scope_label_key v.labels ≡ []))
        × (x ≡ record {
          is_public = true;
          catalog_plan_id = p.plan.catalog_id;
          platform_broker_name = proxy_name r p.broker;
          labels = [];
        }))
      ⊎ ((v.platform_id ≢ "")
          × ((scope : String) × Memᴰ scope (values_of r.visibility_scope_label_key v.labels)
              × (x ≡ record {
                is_public = false;
                catalog_plan_id = p.plan.catalog_id;
                platform_broker_name = proxy_name r p.broker;
                labels = (r.visibility_scope_label_key, scope) ∷ [];
              })))

  is_nil-eq : (xs : List String) → is_nil xs ≡ true → xs ≡ []
  is_nil-eq [] h = refl
  is_nil-eq (x ∷ xs) h = cc

  public_if :
      (v : SmVisibility)
      → should_be_public r v ≡ true
      → (v.platform_id ≡ "") ⊎ (values_of r.visibility_scope_label_key v.labels ≡ [])
  unfolding should_be_public
  public_if v h = elim (Bool-cases (v.platform_id == "")) [
    | inl e ↦ inl ((eq_iff v.platform_id "").0 e)
    | inr e ↦ inr (is_nil-eq _ (rw e at h))
  ]

  platform_if : (v : SmVisibility) → should_be_public r v ≡ false → v.platform_id ≢ ""
  unfolding should_be_public
  platform_if v h p = ground (arith, h, (eq_iff v.platform_id "").1 p)

  pub public_of :
      (v : SmVisibility)
      → (v.platform_id ≡ "") ⊎ (values_of r.visibility_scope_label_key v.labels ≡ [])
      → should_be_public r v ≡ true
  unfolding should_be_public
  public_of v (inl p) = ground (arith, (eq_iff v.platform_id "").1 p)
  public_of v (inr p) = rw p (ground arith)

  not_nil : (scope : String) (xs : List String) → Memᴰ scope xs → is_nil xs ≡ false
  not_nil scope [] i = elim i [ ]
  not_nil scope (x ∷ xs) i = refl

  pub scoped_of :
      (v : SmVisibility) (scope : String)
      → v.platform_id ≢ ""
      → Memᴰ scope (values_of r.visibility_scope_label_key v.labels)
      → should_be_public r v ≡ false
  unfolding should_be_public
  scoped_of v scope n i = rw (test_of_ne v.platform_id "" n, not_nil scope _ i) refl

  -- A visibility of the list demands it, for a plan with the property.
  abbrev pub IsDemanded : (String → BrokerPlan → Type 0) → List SmVisibility → Visibility → Type 0
  IsDemanded Q vs x =
      (v : SmVisibility) × Memᴰ v vs × ((p : BrokerPlan) × Q v.service_plan_id p × StandsFor v p x)

  scoped-StandsFor :
      (v : SmVisibility) (p : BrokerPlan) (scopes : List String)
      → should_be_public r v ≡ false
      → ((scope : String)
          → Memᴰ scope scopes
          → Memᴰ scope (values_of r.visibility_scope_label_key v.labels))
      → All (StandsFor v p) (map (scoped_visibility r p) scopes)
  unfolding scoped_visibility
  scoped-StandsFor v p [] n f = tt
  scoped-StandsFor v p (scope ∷ scopes) n f = (
    inr (platform_if v n, (scope, f scope (Memᴰ.head refl), refl)),
    scoped-StandsFor v p scopes n (λ y i. f y (Memᴰ.tail i)),
  )

  convert-StandsFor :
      (v : SmVisibility) (p : BrokerPlan) → All (StandsFor v p) (convert_sm_visibility r v p)
  unfolding convert_sm_visibility public_visibility
  convert-StandsFor v p =
      All-if _ (should_be_public r v) _ _ (λ e. (inl (public_if v e, refl), tt))
        (λ e. scoped-StandsFor v p _ e (λ y i. i))

  module _ (Q : String → BrokerPlan → Type 0) (all : List SmVisibility) where
    convert_known-IsDemanded :
        (v : SmVisibility) (found : Option BrokerPlan)
        → Memᴰ v all
        → ((p : BrokerPlan) → found ≡ some p → Q v.service_plan_id p)
        → All (IsDemanded Q all) (convert_known r v found)
    unfolding convert_known
    convert_known-IsDemanded v none i f = tt
    convert_known-IsDemanded v (some p) i f =
        All-map (λ x s. (v, i, (p, f p refl, s))) _ (convert-StandsFor v p)

    convert_all-IsDemanded :
        (plans : Dict BrokerPlan) (vs : List SmVisibility)
        → Entries Q plans
        → ((v : SmVisibility) → Memᴰ v vs → Memᴰ v all)
        → All (IsDemanded Q all) (convert_all r plans vs)
    unfolding convert_all
    convert_all-IsDemanded plans [] e f = tt
    convert_all-IsDemanded plans (v ∷ vs) e f =
        All-append _ _ _
          (convert_known-IsDemanded v _ (f v (Memᴰ.head refl))
            (λ p q. Entries-lookup Q v.service_plan_id plans e q))
          (convert_all-IsDemanded plans vs e (λ x i. f x (Memᴰ.tail i)))

module _ (key : Visibility → String) (P : Visibility → Type 0) where
  create_if_missing-All :
      (v : Visibility) (found : Option Visibility) (rest : List Visibility)
      → P v
      → All P rest
      → All P (create_if_missing key v found rest)
  unfolding create_if_missing
  create_if_missing-All v none rest p h = (p, h)
  create_if_missing-All v (some x) rest p h = h

  compare_loop-All :
      (vs : List Visibility) (m : Dict Visibility) → All P vs → All P (compare_loop key vs m).0
  unfolding compare_loop
  compare_loop-All [] m h = tt
  compare_loop-All (v ∷ vs) m (p, h) = create_if_missing-All v _ _ p (compare_loop-All vs _ h)

-- Each visibility that the comparison creates is demanded by one of the Service Manager, whose plan is
-- among the Service Manager's plans, with its offering and its broker: it is public if that one has no
-- platform or no scope, and otherwise it is for one of its scopes; and it is for the catalog id of the
-- plan and the proxy of the broker.
pub to_create-IsDemanded :
    (r : ResyncJob) (key : Visibility → String) (platform_vis : List Visibility)
    (os : List ServiceOffering) (bs : List ServiceBroker) (ps : List ServicePlan)
    (vs : List SmVisibility)
    → All
        (IsDemanded r (IsPlan os bs ps) vs)
        (to_create key platform_vis (convert_all r (sm_broker_plans (offering_map os []) bs ps) vs))
unfolding to_create
to_create-IsDemanded r key platform_vis os bs ps vs =
    compare_loop-All key _ _ _
      (convert_all-IsDemanded r _ vs _ vs (sm_broker_plans-Entries os bs ps) (λ x i. i))
