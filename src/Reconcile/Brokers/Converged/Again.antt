-- ===== src/Reconcile/Brokers/Converged/Again.antt =====
-- The index of proxies and the proxies that reconcileBrokers leaves.
use mathlib.Core.List.{Memᴰ}
use service_broker_proxy.Prelude.{
  ℕ, String, ◌≡◌, sym, ap, ◌∙◌, inl, inr, none, some, List, [], ◌∷◌, All, All-map,
}
use service_broker_proxy.Prelude.Dict.{lookup}
use service_broker_proxy.Prelude.Dict.Entries.{Entries-lookup}
use service_broker_proxy.Types.{ServiceBroker}
use service_broker_proxy.Reconcile.Job.{ResyncJob}
use service_broker_proxy.Reconcile.Brokers.{
  Task, create_registration, update_registration, fetch_catalog, delete_registration, proxied_id,
  index_brokers, broker_tasks,
}
use service_broker_proxy.Reconcile.Brokers.Index.{lookup-index_brokers}
use service_broker_proxy.Reconcile.Brokers.Complete.{last_with-Memᴰ}
use service_broker_proxy.Reconcile.Brokers.Justified.{IsIndexed, index_brokers-Entries}
use service_broker_proxy.Reconcile.Brokers.Settled.{Distinct}
use service_broker_proxy.Reconcile.Brokers.Necessary.{AreApart, Necessary, reconcile_loop-Necessary}
use service_broker_proxy.Reconcile.Brokers.Platform.{Memᴰ-without}
use service_broker_proxy.Reconcile.Brokers.Platform.Effects.{apply_task, apply_tasks}
use service_broker_proxy.Reconcile.Brokers.Converged.{IsOrderly, HasNoProxy}
use service_broker_proxy.Reconcile.Brokers.Converged.Unique.{IsUnique, Pending, fewer}
use service_broker_proxy.Reconcile.Brokers.Converged.Steps.{grown, create-Grows, update-Grows}

module _ (r : ResyncJob) where
  -- The index has a proxy for the id.
  pub indexed :
      (bs : List ServiceBroker) (b : ServiceBroker) (k : String)
      → Memᴰ b bs
      → proxied_id r b ≡ some k
      → (c : ServiceBroker) × (lookup k (index_brokers (proxied_id r) bs) ≡ some c)
        × Memᴰ c bs
        × (proxied_id r c ≡ some k)
  indexed bs b k i p =
      let (c, f) = last_with-Memᴰ r (proxied_id r) k bs none b i p in
      let found : lookup k (index_brokers (proxied_id r) bs) ≡ some c =
        lookup-index_brokers (proxied_id r) k bs ∙ f in
      let (j, q) =
        Entries-lookup (IsIndexed (proxied_id r) bs) k _ (index_brokers-Entries _ bs) found in
      (c, found, j, q)

  pub unproxied :
      (bs : List ServiceBroker) (d : ServiceBroker)
      → lookup d.guid (index_brokers (proxied_id r) bs) ≡ none
      → HasNoProxy r bs d
  unproxied bs d missing b i p =
      let (c, found, _, _) = indexed bs b d.guid i p in
      let clash : none ≡ some c = sym missing ∙ found in cc

  pub tasks-Necessary :
      (lags : List ℕ) (bs desired : List ServiceBroker)
      → Distinct desired
      → All (Necessary r (index_brokers (proxied_id r) bs) desired) (broker_tasks r lags bs desired)
        × AreApart r (broker_tasks r lags bs desired)
  unfolding broker_tasks
  tasks-Necessary lags bs desired u = reconcile_loop-Necessary r desired lags _ _ u

  module _ (guid_of : String → String)
      (apart : (s t : String) → guid_of s ≡ guid_of t → s ≡ t) where
    step :
        (t : Task) (ts : List Task) (bs : List ServiceBroker)
        → IsUnique r guid_of bs (t ∷ ts)
        → AreApart r (t ∷ ts)
        → IsUnique r guid_of (apply_task r guid_of t bs) ts
    step (create_registration d name) ts bs u a =
        let ((h, p, q), ps) = u.pending in
        grown r guid_of apart bs _ d (guid_of d.guid) _ ts
          (create-Grows r guid_of apart bs d h name p q) u a.0
    step (update_registration guid d name) ts bs u a =
        let ((h, p), ps) = u.pending in
        grown r guid_of apart bs _ d guid _ ts
          (update-Grows r guid_of apart bs d h guid name u.guids p) u a.0
    step (fetch_catalog guid d name) ts bs u a =
        fewer r guid_of bs bs ts (λ b i. i) u.guids u.ids u.pending.1
    step (delete_registration c) ts bs u a =
        fewer r guid_of bs _ ts (λ b i. (Memᴰ-without c.guid bs b i).0) u.guids u.ids u.pending.1

    AreApart-tail : (t : Task) (ts : List Task) → AreApart r (t ∷ ts) → AreApart r ts
    AreApart-tail (create_registration d name) ts a = a.1
    AreApart-tail (update_registration guid d name) ts a = a.1
    AreApart-tail (fetch_catalog guid d name) ts a = a
    AreApart-tail (delete_registration c) ts a = a

    steps :
        (ts : List Task) (bs : List ServiceBroker)
        → IsUnique r guid_of bs ts
        → AreApart r ts
        → IsUnique r guid_of (apply_tasks r guid_of ts bs) []
    steps [] bs u a = u
    steps (t ∷ ts) bs u a =
        steps ts (apply_task r guid_of t bs) (step t ts bs u a) (AreApart-tail t ts a)

    module _ (existing desired : List ServiceBroker)
        (o : IsOrderly r guid_of existing desired) where
      first-Pending :
          (t : Task)
          → Necessary r (index_brokers (proxied_id r) existing) desired t
          → Pending r guid_of existing t
      first-Pending (create_registration d name) (i, missing) = (
        o.no_slash d i,
        unproxied existing d missing,
        λ b j. o.fresh d b i (unproxied existing d missing) j,
      )
      first-Pending (update_registration guid d name) (i, inl missing) = (
        o.no_slash d i,
        λ b j p. let (c, found, _, _) = indexed existing b d.guid j p in absurd (cc),
      )
      first-Pending (update_registration guid d name) (i, inr (x, look, g, wrong)) = (
        o.no_slash d i,
        λ b j p.
            let (c, found, m, q) = indexed existing b d.guid j p in
            let same : c ≡ x = cc in
            ap (λ (y : ServiceBroker). y.guid) (o.ids b c d.guid j m p q ∙ same) ∙ g,
      )
      first-Pending (fetch_catalog guid d name) n = tt
      first-Pending (delete_registration c) n = tt

      pub left-IsUnique :
          (lags : List ℕ)
          → Distinct desired
          → IsUnique r guid_of
              (apply_tasks r guid_of (broker_tasks r lags existing desired) existing)
              []
      left-IsUnique lags u =
          let (n, a) = tasks-Necessary lags existing desired u in
          steps _ existing
            (record { guids = o.guids; ids = o.ids; pending = All-map first-Pending _ n }) a
