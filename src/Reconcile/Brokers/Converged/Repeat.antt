-- ===== src/Reconcile/Brokers/Converged/Repeat.antt =====
-- reconcileBrokers, run once more on the brokers that it left.
use service_broker_proxy.Prelude.{
  ℕ, String, ◌≡◌, refl, sym, ap, ◌∙◌, inl, inr, some, none, List, [], ◌∷◌, starts_with, subst, All,
}
use service_broker_proxy.Types.{ServiceBroker}
use service_broker_proxy.Exec.{Log, ok}
use service_broker_proxy.Clients.{Env}
use service_broker_proxy.Reconcile.Job.{ResyncJob}
use service_broker_proxy.Reconcile.Brokers.{
  Task, create_registration, update_registration, fetch_catalog, delete_registration, proxied_id,
  index_brokers, broker_tasks,
}
use service_broker_proxy.Reconcile.Brokers.Tasks.{reconcile_brokers}
use service_broker_proxy.Reconcile.Brokers.Justified.{NotAmong, broker_tasks-Justified}
use service_broker_proxy.Reconcile.Brokers.Settled.{Distinct}
use service_broker_proxy.Reconcile.Brokers.Necessary.{Necessary}
use service_broker_proxy.Reconcile.Brokers.Platform.{IsWilling}
use service_broker_proxy.Reconcile.Brokers.Platform.Effects.{apply_tasks}
use service_broker_proxy.Reconcile.Brokers.Converged.{IsOrderly, IsJust, NotAmong-absurd}
use service_broker_proxy.Reconcile.Brokers.Converged.Whole.{
  IsConverged, AreUnblocked, listed, listing-reconcile, reconcile_brokers-IsConverged,
}
use service_broker_proxy.Reconcile.Brokers.Converged.Unique.{IsUnique}
use service_broker_proxy.Reconcile.Brokers.Converged.Again.{indexed, tasks-Necessary, left-IsUnique}

abbrev pub IsRefetch : Task → Type 0
IsRefetch (fetch_catalog guid d name) = Unit
IsRefetch t = ⊥

module _ (r : ResyncJob) (guid_of : String → String) where
  apply_tasks-refetch :
      (ts : List Task) (bs : List ServiceBroker)
      → All IsRefetch ts
      → apply_tasks r guid_of ts bs ≡ bs
  apply_tasks-refetch [] bs h = refl
  apply_tasks-refetch (fetch_catalog guid d name ∷ ts) bs (h, hs) = apply_tasks-refetch ts bs hs
  apply_tasks-refetch (create_registration d name ∷ ts) bs (h, hs) = elim h [ ]
  apply_tasks-refetch (update_registration guid d name ∷ ts) bs (h, hs) = elim h [ ]
  apply_tasks-refetch (delete_registration c ∷ ts) bs (h, hs) = elim h [ ]

  module _ (existing desired left : List ServiceBroker) (u : IsUnique r guid_of left [])
      (c : IsConverged r existing desired left) where
    refetched :
        (t : Task)
        → IsJust r guid_of left desired t
        → Necessary r (index_brokers (proxied_id r) left) desired t
        → IsRefetch t
    refetched (create_registration d name) j (i, missing) =
        let (b, m, right) = c.serves d i in
        let (x, found, _, _) = indexed r left b d.guid m right.proxies in
        let e : none ≡ some x = sym missing ∙ found in cc
    refetched (update_registration guid d name) j (i, inl missing) =
        let (b, m, right) = c.serves d i in
        let (x, found, _, _) = indexed r left b d.guid m right.proxies in
        let e : none ≡ some x = sym missing ∙ found in cc
    refetched (update_registration guid d name) j (i, inr (y, look, g, wrong)) =
        let (b, m, right) = c.serves d i in
        let (x, found, n, q) = indexed r left b d.guid m right.proxies in
        let same : x ≡ y = cc in
        let e : b ≡ y = u.ids b x d.guid m n right.proxies q ∙ same in
        wrong (sym (ap (λ (z : ServiceBroker). z.name) e) ∙ right.named)
          (sym (ap (λ (z : ServiceBroker). starts_with z.broker_url r.sm_path) e) ∙ right.located)
    refetched (fetch_catalog guid d name) j n = tt
    refetched (delete_registration b) (k, (i, p), n) m =
        let (d, j, e) = c.serves_only b k i p in
        NotAmong-absurd d desired j (subst (λ x. NotAmong x desired) (sym e) n)

    just_and_needed :
        (ts : List Task)
        → All (IsJust r guid_of left desired) ts
        → All (Necessary r (index_brokers (proxied_id r) left) desired) ts
        → All IsRefetch ts
    just_and_needed [] j n = tt
    just_and_needed (t ∷ ts) (j, js) (n, ns) = (refetched t j n, just_and_needed ts js ns)

    tasks_refetched :
        (lags : List ℕ) → Distinct desired → All IsRefetch (broker_tasks r lags left desired)
    tasks_refetched lags distinct =
        just_and_needed _ (broker_tasks-Justified r lags left desired)
          (tasks-Necessary r lags left desired distinct).0

module _ (env : Env) (r : ResyncJob) (guid_of : String → String) (initial : List ServiceBroker)
    (w : IsWilling guid_of initial env)
    (apart : (s t : String) → guid_of s ≡ guid_of t → s ≡ t) where
  left_by_first :
      (s : Log) (existing desired left : List ServiceBroker)
      → env.loop_lags s ≡ []
      → env.get_brokers s ≡ ok existing
      → env.get_brokers (reconcile_brokers env r existing desired s).1 ≡ ok left
      → apply_tasks r guid_of (broker_tasks r [] existing desired) existing ≡ left
  left_by_first s existing desired left at_once before behind =
      ap (apply_tasks r guid_of (broker_tasks r [] existing desired))
        (sym (listed env r guid_of initial w s existing before))
      ∙ sym (listing-reconcile env r guid_of initial w s existing desired [] at_once)
      ∙ listed env r guid_of initial w _ left behind

  -- If the tasks of a resync run one after the other, the platform and the Service Manager refuse
  -- no call and the platform lists its brokers as the calls so far made them, GUIDs, ids and keys
  -- tell brokers apart, the platform gives each new broker a GUID that depends on its id only and
  -- that, for a desired broker without a proxy, none of its brokers has, no proxy has the name and
  -- the URL of a desired broker, each desired broker may be taken over or none has its key, the ids
  -- have no slash and no two desired brokers have the same one, the platform gives different ids
  -- different GUIDs, and the deletions of a first reconcileBrokers read the loop variable at once:
  -- a second reconcileBrokers, on the brokers that the first left and for the same desired ones,
  -- has no tasks but to fetch catalogs, whatever its deletions read of the loop variable, and the
  -- platform then lists the same brokers as before it.
  pub reconcile_brokers_again :
      (s : Log) (existing desired left : List ServiceBroker) (lags : List ℕ)
      (o : IsOrderly r guid_of existing desired)
      → AreUnblocked r existing desired
      → Distinct desired
      → env.loop_lags s ≡ []
      → env.get_brokers s ≡ ok existing
      → env.get_brokers (reconcile_brokers env r existing desired s).1 ≡ ok left
      → All IsRefetch (broker_tasks r lags left desired)
        × (env.get_brokers
              (reconcile_brokers env r left desired
                (reconcile_brokers env r existing desired s).1).1
            ≡ ok left)
  reconcile_brokers_again s existing desired left lags o free distinct at_once before behind =
      let c =
        reconcile_brokers-IsConverged env r guid_of initial w s existing desired left o free
          distinct at_once before behind in
      let u : IsUnique r guid_of left [] =
        subst (λ bs. IsUnique r guid_of bs [])
          (left_by_first s existing desired left at_once before behind)
          (left-IsUnique r guid_of apart existing desired o [] distinct) in
      let refetches : (lags : List ℕ) → All IsRefetch (broker_tasks r lags left desired) =
        λ lags. tasks_refetched r guid_of existing desired left u c lags distinct in
      let s' = (reconcile_brokers env r existing desired s).1 in
      (
        refetches lags,
        w.lists _
            ∙ ap (λ bs. ok bs)
                (listing-reconcile env r guid_of initial w s' left desired _ refl
                  ∙ apply_tasks-refetch r guid_of _ _ (refetches (env.loop_lags s'))
                  ∙ listed env r guid_of initial w s' left behind),
      )
