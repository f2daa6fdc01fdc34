-- ===== src/Reconcile/Brokers/Converged/Left.antt =====
-- Which proxies reconcileBrokers leaves on the platform.
use mathlib.Core.List.{Memᴰ}
use mathlib.Core.Option.{some-injective}
use mathlib.Core.List.Memᴰ as MemD
use service_broker_proxy.Prelude.{
  String, ◌≡◌, sym, ap, ◌∙◌, ◌⊎◌, inl, inr, some, List, [], ◌∷◌, subst, All, ◌==◌, Bool-cases,
}
use service_broker_proxy.Types.{ServiceBroker}
use service_broker_proxy.Reconcile.Urls.Ids.{HasNoSlash}
use service_broker_proxy.Reconcile.Job.{ResyncJob, proxy_url}
use service_broker_proxy.Reconcile.Brokers.{
  Task, create_registration, update_registration, fetch_catalog, delete_registration, proxied_id,
}
use service_broker_proxy.Reconcile.Brokers.Platform.{renamed, Memᴰ-without}
use service_broker_proxy.Reconcile.Brokers.Platform.Effects.{apply_task, apply_tasks}
use service_broker_proxy.Reconcile.Brokers.Converged.{IsJust, proxied_id-url}

delete_guid :
    {b c : ServiceBroker} → delete_registration b ≡ delete_registration c → b.guid ≡ c.guid
delete_guid q = cc

module _ (r : ResyncJob) (guid_of : String → String) (existing desired : List ServiceBroker)
    (no_slash : (d : ServiceBroker) → Memᴰ d desired → HasNoSlash d.guid) where
  abbrev pub IsDesired : String → Type 0
  IsDesired k = (d : ServiceBroker) × Memᴰ d desired × (d.guid ≡ k)

  -- A task that is left deletes the broker.
  abbrev IsDoomed : ServiceBroker → List Task → Type 0
  IsDoomed b ts = (c : ServiceBroker) × Memᴰ (delete_registration c) ts × (c.guid ≡ b.guid)

  -- Every proxy is for a desired broker, or is to be deleted.
  abbrev pub AllSettled : List ServiceBroker → List Task → Type 0
  AllSettled bs ts =
      (b : ServiceBroker) (k : String)
      → Memᴰ b bs
      → proxied_id r b ≡ some k
      → IsDesired k ⊎ IsDoomed b ts

  still-IsDoomed :
      (b : ServiceBroker) (t : Task) (ts : List Task)
      → ((c : ServiceBroker) → c.guid ≡ b.guid → delete_registration c ≡ t → ⊥)
      → {k : String} → IsDesired k ⊎ IsDoomed b (t ∷ ts)
      → IsDesired k ⊎ IsDoomed b ts
  still-IsDoomed b t ts n (inl h) = inl h
  still-IsDoomed b t ts n (inr (c, Memᴰ.head e, g)) = absurd (n c g e)
  still-IsDoomed b t ts n (inr (c, Memᴰ.tail i, g)) = inr (c, i, g)

  desired_of :
      (d b : ServiceBroker) {k : String}
      → Memᴰ d desired
      → b.broker_url ≡ proxy_url r d
      → proxied_id r b ≡ some k
      → IsDesired k
  desired_of d b {k} m u p =
      (d, m, some-injective d.guid k (sym (proxied_id-url r d b (no_slash d m) u) ∙ p))

  renamed-settled :
      (guid name : String) (d x : ServiceBroker) (ts : List Task) (k : String)
      → Memᴰ d desired
      → (proxied_id r x ≡ some k → IsDesired k ⊎ IsDoomed x ts)
      → proxied_id r (renamed guid name (proxy_url r d) x) ≡ some k
      → IsDesired k ⊎ IsDoomed (renamed guid name (proxy_url r d) x) ts
  renamed-settled guid name d x ts k m h p = elim (Bool-cases (x.guid == guid)) [
    | inl e ↦ inl (desired_of d (renamed guid name (proxy_url r d) x) m (rw e) p)
    | inr e ↦ rw e (h (rw e at p))
  ]

  step :
      (t : Task) (ts : List Task) (bs : List ServiceBroker)
      → IsJust r guid_of existing desired t
      → AllSettled bs (t ∷ ts)
      → AllSettled (apply_task r guid_of t bs) ts
  step (create_registration d name) ts bs (m, e) h b k i p = elim (MemD.append_cases bs i) [
    | inl j ↦ still-IsDoomed b _ ts (λ c g q. cc) (h b k j p)
    | inr j ↦
        inl (desired_of d b m (ap (λ (y : ServiceBroker). y.broker_url) (MemD.eq_of_singleton j)) p)
  ]
  step (update_registration guid d name) ts bs (j, n, rest) h b k i p =
      let (x, m, e) = MemD.of_map (renamed guid name (proxy_url r d)) bs i in
      subst (λ y. IsDesired k ⊎ IsDoomed y ts) e
        (renamed-settled guid name d x ts k j (λ q. still-IsDoomed x _ ts (λ c g f. cc) (h x k m q))
          (subst (λ y. proxied_id r y ≡ some k) (sym e) p))
  step (fetch_catalog guid d name) ts bs j h b k i p =
      still-IsDoomed b _ ts (λ c g q. cc) (h b k i p)
  step (delete_registration c) ts bs j h b k i p =
      let (m, n) = Memᴰ-without c.guid bs b i in
      still-IsDoomed b _ ts (λ x g q. n (sym g ∙ delete_guid q)) (h b k m p)

  all_settled :
      (ts : List Task) (bs : List ServiceBroker)
      → All (IsJust r guid_of existing desired) ts
      → AllSettled bs ts
      → AllSettled (apply_tasks r guid_of ts bs) []
  all_settled [] bs j h = h
  all_settled (t ∷ ts) bs (j, js) h =
      all_settled ts (apply_task r guid_of t bs) js (step t ts bs j h)

  -- After the tasks every proxy is for a desired broker.
  pub left-IsDesired :
      (ts : List Task) (bs : List ServiceBroker)
      → All (IsJust r guid_of existing desired) ts
      → AllSettled bs ts
      → (b : ServiceBroker) (k : String) → Memᴰ b (apply_tasks r guid_of ts bs)
      → proxied_id r b ≡ some k
      → IsDesired k
  left-IsDesired ts bs j h b k i p = elim (all_settled ts bs j h b k i p) [
    | inl d ↦ d
    | inr (c, m, g) ↦ absurd (MemD.not-nil m)
  ]
