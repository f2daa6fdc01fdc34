-- ===== src/Reconcile/Brokers/Converged/Unique.antt =====
-- reconcileBrokers makes no second proxy for an id.
use mathlib.Core.List.{Memᴰ}
use mathlib.Core.Option.{some-injective}
use service_broker_proxy.Prelude.{
  String, ◌≡◌, sym, ◌∙◌, ◌≢◌, ◌⊎◌, inl, inr, some, List, All, All-map,
}
use service_broker_proxy.Types.{ServiceBroker}
use service_broker_proxy.Reconcile.Urls.Ids.{HasNoSlash}
use service_broker_proxy.Reconcile.Job.{ResyncJob}
use service_broker_proxy.Reconcile.Brokers.{
  Task, create_registration, update_registration, fetch_catalog, delete_registration, proxied_id,
}
use service_broker_proxy.Reconcile.Brokers.Necessary.{Apart}

module _ (r : ResyncJob) (guid_of : String → String) where
  -- A broker that is to be created has no proxy, and one that is to be updated no other one.
  abbrev pub Pending : List ServiceBroker → Task → Type 0
  Pending bs (create_registration d name) =
      HasNoSlash d.guid
      × ((b : ServiceBroker) → Memᴰ b bs → proxied_id r b ≡ some d.guid → ⊥)
      × ((b : ServiceBroker) → Memᴰ b bs → guid_of d.guid ≢ b.guid)
  Pending bs (update_registration guid d name) =
      HasNoSlash d.guid
      × ((b : ServiceBroker) → Memᴰ b bs → proxied_id r b ≡ some d.guid → b.guid ≡ guid)
  Pending bs t = Unit

  pub record IsUnique (bs : List ServiceBroker) (ts : List Task) : Type 0 where
    pub guids : (b c : ServiceBroker) → Memᴰ b bs → Memᴰ c bs → b.guid ≡ c.guid → b ≡ c
    pub ids :
        (b c : ServiceBroker) (k : String)
        → Memᴰ b bs
        → Memᴰ c bs
        → proxied_id r b ≡ some k
        → proxied_id r c ≡ some k
        → b ≡ c
    pub pending : All (Pending bs) ts

  Pending-fewer :
      (bs cs : List ServiceBroker)
      → ((b : ServiceBroker) → Memᴰ b cs → Memᴰ b bs)
      → (t : Task) → Pending bs t
      → Pending cs t
  Pending-fewer bs cs f (create_registration d name) (h, p, q) =
      (h, λ b i. p b (f b i), λ b i. q b (f b i))
  Pending-fewer bs cs f (update_registration guid d name) (h, p) = (h, λ b i. p b (f b i))
  Pending-fewer bs cs f (fetch_catalog guid d name) p = tt
  Pending-fewer bs cs f (delete_registration b) p = tt

  pub fewer :
      (bs cs : List ServiceBroker) (ts : List Task)
      → ((b : ServiceBroker) → Memᴰ b cs → Memᴰ b bs)
      → ((b c : ServiceBroker) → Memᴰ b bs → Memᴰ c bs → b.guid ≡ c.guid → b ≡ c)
      → ((b c : ServiceBroker) (k : String)
          → Memᴰ b bs
          → Memᴰ c bs
          → proxied_id r b ≡ some k
          → proxied_id r c ≡ some k
          → b ≡ c)
      → All (Pending bs) ts
      → IsUnique cs ts
  fewer bs cs ts f g h p = record {
    guids = λ b c i j. g b c (f b i) (f c j);
    ids = λ b c k i j. h b c k (f b i) (f c j);
    pending = All-map (Pending-fewer bs cs f) ts p;
  }

  -- One broker comes in, or is changed, which then is a proxy for the desired one.
  module _ (bs cs : List ServiceBroker) (d : ServiceBroker) (guid : String) where
    abbrev pub IsOld : ServiceBroker → Type 0
    IsOld b = Memᴰ b bs × (proxied_id r b ≡ some d.guid → ⊥) × (b.guid ≢ guid)

    abbrev pub IsNew : ServiceBroker → Type 0
    IsNew b = (proxied_id r b ≡ some d.guid) × (b.guid ≡ guid)

    pub record Grows : Type 0 where
      pub either : (b : ServiceBroker) → Memᴰ b cs → IsOld b ⊎ IsNew b
      pub one : (b c : ServiceBroker) → Memᴰ b cs → Memᴰ c cs → IsNew b → IsNew c → b ≡ c
      pub fresh :
          (e b : ServiceBroker)
          → e.guid ≢ d.guid
          → ((x : ServiceBroker) → Memᴰ x bs → guid_of e.guid ≢ x.guid)
          → Memᴰ b cs
          → IsNew b
          → guid_of e.guid ≢ b.guid

    module _ (w : Grows) where
      not_for : (e b : ServiceBroker) → e.guid ≢ d.guid → IsNew b → proxied_id r b ≡ some e.guid → ⊥
      not_for e b n (p, q) h = n (some-injective e.guid d.guid (sym h ∙ p))

      pub Pending-grows : (t : Task) → Pending bs t × Apart r d.guid t → Pending cs t
      Pending-grows (create_registration e name) ((h, p, q), n) = (
        h,
        λ b i. elim (w.either b i) [ inl o ↦ p b o.0 | inr x ↦ not_for e b n x ],
        λ b i. elim (w.either b i) [ inl o ↦ q b o.0 | inr x ↦ w.fresh e b n q i x ],
      )
      Pending-grows (update_registration g e name) ((h, p), n) = (
        h,
        λ b i. elim (w.either b i) [ inl o ↦ p b o.0 | inr x ↦ λ y. absurd (not_for e b n x y) ],
      )
      Pending-grows (fetch_catalog g e name) p = tt
      Pending-grows (delete_registration b) p = tt

      pub ids_of :
          (b c : ServiceBroker) (k : String)
          → ((x y : ServiceBroker) (k : String)
              → Memᴰ x bs
              → Memᴰ y bs
              → proxied_id r x ≡ some k
              → proxied_id r y ≡ some k
              → x ≡ y)
          → Memᴰ b cs
          → Memᴰ c cs
          → IsOld b ⊎ IsNew b
          → IsOld c ⊎ IsNew c
          → proxied_id r b ≡ some k
          → proxied_id r c ≡ some k
          → b ≡ c
      ids_of b c k h i j (inl x) (inl y) p q = h b c k x.0 y.0 p q
      ids_of b c k h i j (inl x) (inr y) p q = absurd (x.1 (p ∙ sym q ∙ y.0))
      ids_of b c k h i j (inr x) (inl y) p q = absurd (y.1 (q ∙ sym p ∙ x.0))
      ids_of b c k h i j (inr x) (inr y) p q = w.one b c i j x y

      pub guids_of :
          (b c : ServiceBroker)
          → ((x y : ServiceBroker) → Memᴰ x bs → Memᴰ y bs → x.guid ≡ y.guid → x ≡ y)
          → Memᴰ b cs
          → Memᴰ c cs
          → IsOld b ⊎ IsNew b
          → IsOld c ⊎ IsNew c
          → b.guid ≡ c.guid
          → b ≡ c
      guids_of b c h i j (inl x) (inl y) p = h b c x.0 y.0 p
      guids_of b c h i j (inl x) (inr y) p = absurd (x.2 (p ∙ y.1))
      guids_of b c h i j (inr x) (inl y) p = absurd (y.2 (sym p ∙ x.1))
      guids_of b c h i j (inr x) (inr y) p = w.one b c i j x y
