-- ===== src/Reconcile/Brokers/Converged/Tasks.antt =====
-- The tasks of reconcileBrokers, where GUIDs, ids and keys tell the brokers apart.
use mathlib.Core.List.{Memᴰ}
use mathlib.Core.Option.{some-injective}
use service_broker_proxy.Prelude.{
  String, ◌≡◌, sym, ap, ◌∙◌, ◌⊎◌, inl, inr, true, some, List, [], ◌∷◌, subst, All, All-map,
}
use service_broker_proxy.Types.{ServiceBroker}
use service_broker_proxy.Reconcile.Urls.{get_broker_key}
use service_broker_proxy.Reconcile.Job.{ResyncJob, proxy_name}
use service_broker_proxy.Reconcile.Brokers.{
  Task, create_registration, update_registration, fetch_catalog, delete_registration, proxied_id,
  broker_key,
}
use service_broker_proxy.Reconcile.Brokers.Complete.{IsFor, Has}
use service_broker_proxy.Reconcile.Brokers.Justified.{NotAmong, IsIndexed}
use service_broker_proxy.Reconcile.Brokers.Converged.{
  IsOrderly, IsJust, HasNoProxy, NotAmong-absurd,
}
use service_broker_proxy.Reconcile.Brokers.Converged.Served.{
  Spares, Serving, served, to_create, to_update,
}

-- A broker is created only for a desired one without a proxy.
abbrev pub IsNeeded : ResyncJob → List ServiceBroker → Task → Type 0
IsNeeded r existing (create_registration e name) = HasNoProxy r existing e
IsNeeded r existing t = Unit

module _ (r : ResyncJob) (guid_of : String → String) (existing desired : List ServiceBroker)
    (o : IsOrderly r guid_of existing desired) (d : ServiceBroker) (m : Memᴰ d desired) where
  abbrev Just : Task → Type 0
  Just = IsJust r guid_of existing desired

  -- The broker is taken for a proxy of the desired broker, or has its key.
  abbrev Matches : ServiceBroker → ServiceBroker → Type 0
  Matches e b =
      IsIndexed (proxied_id r) existing e.guid b
      ⊎ IsIndexed broker_key existing (get_broker_key e) b

  key_of : (b : ServiceBroker) (k : String) → broker_key b ≡ some k → get_broker_key b ≡ k
  key_of b k q = some-injective _ k q

  -- Two desired brokers are not matched by the same broker.
  Matches-one : (b e : ServiceBroker) → Memᴰ e desired → Matches d b → Matches e b → e ≡ d
  Matches-one b e n (inl (i, p)) (inl (j, q)) =
      o.desired_ids e d n m (some-injective _ _ (sym q ∙ p))
  Matches-one b e n (inl (i, p)) (inr (j, q)) = absurd (o.separate b e d.guid i n p (key_of b _ q))
  Matches-one b e n (inr (i, p)) (inl (j, q)) = absurd (o.separate b d e.guid i m q (key_of b _ p))
  Matches-one b e n (inr (i, p)) (inr (j, q)) =
      o.desired_keys e d n m (sym (key_of b _ q) ∙ key_of b _ p)

  matched-Memᴰ : (e b : ServiceBroker) → Matches e b → Memᴰ b existing
  matched-Memᴰ e b (inl (i, p)) = i
  matched-Memᴰ e b (inr (i, p)) = i

  update-Matches :
      (e b : ServiceBroker)
      → IsIndexed (proxied_id r) existing e.guid b
        ⊎ ((r.options.takeover_enabled ≡ true) × IsIndexed broker_key existing (get_broker_key e) b)
      → Matches e b
  update-Matches e b (inl q) = inl q
  update-Matches e b (inr (t, q)) = inr q

  updated_one :
      (b c e : ServiceBroker) {name : String}
      → Memᴰ e desired
      → Matches d b
      → Matches e c
      → c ≡ b
      → name ≡ proxy_name r e
      → (e ≡ d) × (name ≡ proxy_name r d)
  updated_one b c e n q w same named =
      let p = Matches-one b e n q (subst (Matches e) same w) in (p, named ∙ ap (proxy_name r) p)

  none_deleted :
      (b c : ServiceBroker) (k : String)
      → Matches d b
      → proxied_id r c ≡ some k
      → NotAmong k desired
      → c ≡ b
      → ⊥
  none_deleted b c k (inl (i, q)) p n same =
      let k_is : k ≡ d.guid = some-injective k d.guid (sym p ∙ ap (proxied_id r) same ∙ q) in
      NotAmong-absurd d desired m (subst (λ x. NotAmong x desired) k_is n)
  none_deleted b c k (inr (i, q)) p n same =
      o.separate b d k i m (ap (proxied_id r) (sym same) ∙ p) (key_of b _ q)

  spared : (b : ServiceBroker) (t : Task) → Matches d b → Just t → Spares r d b.guid t
  spared b (create_registration e name) q j = tt
  spared b (update_registration guid e name) q (n, named, (c, g, w)) = λ p.
      let w' = update-Matches e c w in
      updated_one b c e n q w' (o.guids c b (matched-Memᴰ e c w') (matched-Memᴰ d b q) (g ∙ sym p))
        named
  spared b (fetch_catalog guid e name) q j = tt
  spared b (delete_registration c) q (k, (i, p), n) =
      λ g. none_deleted b c k q p n (o.guids c b i (matched-Memᴰ d b q) (sym g))

  spared_new : HasNoProxy r existing d → (t : Task) → Just t → Spares r d (guid_of d.guid) t
  spared_new new (create_registration e name) j = tt
  spared_new new (update_registration guid e name) (n, named, (c, g, inl (i, p))) =
      λ q. absurd (o.fresh d c m new i (q ∙ sym g))
  spared_new new (update_registration guid e name) (n, named, (c, g, inr (t, (i, p)))) =
      λ q. absurd (o.fresh d c m new i (q ∙ sym g))
  spared_new new (fetch_catalog guid e name) j = tt
  spared_new new (delete_registration c) (k, (i, p), n) = o.fresh d c m new i

  at_task : (P : Task → Type 0) (ts : List Task) {t : Task} → Memᴰ t ts → All P ts → P t
  at_task P [] i js = elim i [ ]
  at_task P (x ∷ ts) (Memᴰ.head e) js = subst P (sym e) js.0
  at_task P (x ∷ ts) (Memᴰ.tail i) js = at_task P ts i js.1

  -- Before the tasks, the broker is served or one of them will serve it.
  starts :
      (ts : List Task) (t : Task)
      → All Just ts
      → Memᴰ t ts
      → IsFor d t
      → IsNeeded r existing t
      → Just t
      → Serving r guid_of d existing ts
  starts ts (create_registration e name) js i f new (n, named) =
      to_create
        (subst (λ x. Memᴰ x ts)
          (ap (λ y. create_registration e y) named
            ∙ ap (λ y. create_registration y (proxy_name r y)) f)
          i)
        (All-map (spared_new (subst (HasNoProxy r existing) f new)) ts js)
  starts ts (update_registration guid e name) js i f new (n, named, (c, g, w)) =
      let w' = subst (λ x. Matches x c) f (update-Matches e c w) in
      to_update c guid (matched-Memᴰ d c w') g
        (subst (λ x. Memᴰ x ts)
          (ap (λ y. update_registration guid e y) named
            ∙ ap (λ y. update_registration guid y (proxy_name r y)) f)
          i)
        (subst (λ x. All (Spares r d x) ts) g (All-map (λ t j. spared c t w' j) ts js))
  starts ts (fetch_catalog guid e name) js i f new (n, named, (c, g, (j, p), bn, bu)) =
      served c j
        (record {
          proxies = p ∙ ap (λ (y : ServiceBroker). some y.guid) f;
          named = bn ∙ ap (proxy_name r) f;
          located = bu;
        })
        (All-map (λ t k. spared c t (inl (j, p ∙ ap (λ (y : ServiceBroker). some y.guid) f)) k) ts
          js)
  starts ts (delete_registration c) js i f new j = absurd f

  pub has-Serving :
      (ts : List Task)
      → All Just ts
      → All (IsNeeded r existing) ts
      → Has (IsFor d) ts
      → Serving r guid_of d existing ts
  has-Serving ts js ns (t, i, f) =
      starts ts t js i f (at_task (IsNeeded r existing) ts i ns) (at_task Just ts i js)
