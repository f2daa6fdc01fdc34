-- ===== src/Reconcile/Brokers/Settled.antt =====
-- The tasks of reconcileBrokers on a platform that has exactly the proxies of the desired brokers.
use mathlib.Core.List.{append-nil, append_assoc}
use text.Mathlib.TextPositions.{starts_with-append}
use service_broker_proxy.Prelude.{
  ℕ, String, ◌<>◌, ◌≡◌, refl, ◌∙◌, sym, ap, some, List, [], ◌∷◌, ◌++◌, map, eq_refl, test_of_ne,
  All,
}
use service_broker_proxy.Prelude.Dict.{Dict, lookup, insert, values}
use service_broker_proxy.Prelude.Dict.Fresh.{
  IsFresh, insert-IsFresh, IsFresh-append, lookup-head, erase-head,
}
use service_broker_proxy.Types.{ServiceBroker}
use service_broker_proxy.Reconcile.Urls.Ids.{HasNoSlash, broker_id_from_url-append}
use service_broker_proxy.Reconcile.Job.{ResyncJob, proxy_name, proxy_url}
use service_broker_proxy.Reconcile.Brokers.{
  Task, fetch_catalog, proxied_id, add_to_index, index_loop, index_brokers, resync_taken_over,
  resync_desired, delete_loop, reconcile_loop, broker_tasks,
}
use service_broker_proxy.Reconcile.Brokers.Justified.{NotAmong}

abbrev pub Distinct : List ServiceBroker → Type 0
Distinct [] = Unit
Distinct (d ∷ ds) = NotAmong d.guid ds × Distinct ds

module _ (r : ResyncJob) (guid_of : ServiceBroker → String) where
  -- The proxy of a desired broker, as the platform has it.
  abbrev pub proxy_of : ServiceBroker → ServiceBroker
  proxy_of d = record { guid = guid_of d; name = proxy_name r d; broker_url = proxy_url r d }

  abbrev pub refetch : ServiceBroker → Task
  refetch d = fetch_catalog (guid_of d) d (proxy_name r d)

  entries : List ServiceBroker → Dict ServiceBroker
  entries [] = []
  entries (d ∷ ds) = (d.guid, proxy_of d) ∷ entries ds

  proxied_id-proxy_of :
      (d : ServiceBroker) → HasNoSlash d.guid → proxied_id r (proxy_of d) ≡ some d.guid
  unfolding proxied_id
  proxied_id-proxy_of d h =
      rw
        (starts_with-append r.sm_path ("/" <> d.guid), broker_id_from_url-append r.sm_path d.guid h)

  entries-IsFresh : (k : String) (ds : List ServiceBroker) → NotAmong k ds → IsFresh k (entries ds)
  unfolding entries lookup
  entries-IsFresh k [] h = refl
  entries-IsFresh k (d ∷ ds) (n, h) = rw (test_of_ne d.guid k n) (entries-IsFresh k ds h)

  -- The keys of the desired brokers are new to the map.
  abbrev AllFresh : List ServiceBroker → Dict ServiceBroker → Type 0
  AllFresh ds m = All (λ d. IsFresh d.guid m) ds

  AllFresh-append :
      (k : String) (v : ServiceBroker) (ds : List ServiceBroker) (m : Dict ServiceBroker)
      → NotAmong k ds
      → AllFresh ds m
      → AllFresh ds (m ++ (k, v) ∷ [])
  AllFresh-append k v [] m n h = tt
  AllFresh-append k v (d ∷ ds) m (e, n) (f, h) =
      (IsFresh-append d.guid k v m f (λ p. e (sym p)), AllFresh-append k v ds m n h)

  index_step :
      (d : ServiceBroker)
      → HasNoSlash d.guid
      → (m : Dict ServiceBroker)
      → add_to_index (proxied_id r (proxy_of d)) (proxy_of d) m ≡ insert d.guid (proxy_of d) m
  unfolding add_to_index
  index_step d s m = rw (proxied_id-proxy_of d s, add_to_index)

  index_loop-entries :
      (ds : List ServiceBroker) (m : Dict ServiceBroker)
      → All (λ d. HasNoSlash d.guid) ds
      → Distinct ds
      → AllFresh ds m
      → index_loop (proxied_id r) (map proxy_of ds) m ≡ m ++ entries ds
  unfolding index_loop entries
  index_loop-entries [] m s u f = sym (append-nil m)
  index_loop-entries (d ∷ ds) m (s, ss) (u, us) (f, fs) =
      ap (index_loop (proxied_id r) (map proxy_of ds))
        (index_step d s m ∙ insert-IsFresh d.guid (proxy_of d) m f)
      ∙ index_loop-entries ds _ ss us (AllFresh-append d.guid (proxy_of d) ds m u fs)
      ∙ append_assoc m ((d.guid, proxy_of d) ∷ []) (entries ds)

  taken_over-refetch : (d : ServiceBroker) → resync_taken_over r d (proxy_of d) ≡ refetch d ∷ []
  unfolding resync_taken_over
  taken_over-refetch d = rw (eq_refl (proxy_name r d), starts_with-append r.sm_path ("/" <> d.guid))

  reconcile_loop-refetch :
      (ds : List ServiceBroker) (lags : List ℕ) (keys : Dict ServiceBroker)
      → Distinct ds
      → reconcile_loop r ds lags (entries ds) keys ≡ map refetch ds
  unfolding reconcile_loop entries values resync_desired delete_loop
  reconcile_loop-refetch [] lags keys u = refl
  reconcile_loop-refetch (d ∷ ds) lags keys (u, us) =
      rw (lookup-head d.guid (proxy_of d) (entries ds)) (
        rw (erase-head d.guid (proxy_of d) (entries ds) (entries-IsFresh d.guid ds u)) (
          rw (taken_over-refetch d)
            (ap (λ l. refetch d ∷ l) (reconcile_loop-refetch ds lags keys us))))

  -- If the platform's brokers are the proxies of the desired brokers, each under its proxy name and URL
  -- and with any GUID, and the desired ids are distinct and have no slash, then the tasks are exactly
  -- one refetch for each desired broker, in order: nothing is created, updated or deleted.
  pub broker_tasks_of_proxies :
      (lags : List ℕ) (ds : List ServiceBroker)
      → All (λ d. HasNoSlash d.guid) ds
      → Distinct ds
      → broker_tasks r lags (map proxy_of ds) ds ≡ map refetch ds
  unfolding broker_tasks index_brokers lookup
  broker_tasks_of_proxies lags ds s u =
      rw (index_loop-entries ds [] s u (all_fresh ds)) (reconcile_loop-refetch ds lags _ u)
    where
      all_fresh : (xs : List ServiceBroker) → AllFresh xs []
      all_fresh [] = tt
      all_fresh (x ∷ xs) = (refl, all_fresh xs)
