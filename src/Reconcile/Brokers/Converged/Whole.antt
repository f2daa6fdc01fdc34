-- ===== src/Reconcile/Brokers/Converged/Whole.antt =====
-- reconcileBrokers against a platform and a Service Manager that refuse nothing.
use mathlib.Core.List.{Memᴰ}
use mathlib.Core.Option.{some-injective}
use mathlib.Core.List.Memᴰ as MemD
use service_broker_proxy.Prelude.{
  ℕ, String, ◌≡◌, refl, sym, ap, ◌∙◌, ◌≢◌, ◌⊎◌, inl, inr, true, some, List, [], ◌∷◌, subst, All,
  All-map, Bool-cases, test_of_ne, ne_of_test, ◌==◌, eq_iff,
}
use service_broker_proxy.Types.{ServiceBroker}
use service_broker_proxy.Exec.{Log, ok, ◌>>=◌}
use service_broker_proxy.Clients.{Env}
use service_broker_proxy.Reconcile.Urls.{get_broker_key}
use service_broker_proxy.Reconcile.Job.{ResyncJob, proxy_url}
use service_broker_proxy.Reconcile.Scheduler.{schedule_all}
use service_broker_proxy.Reconcile.Brokers.{
  Task, create_registration, update_registration, fetch_catalog, delete_registration, proxied_id,
  index_brokers, broker_tasks,
}
use service_broker_proxy.Reconcile.Brokers.Tasks.{reconcile_brokers}
use service_broker_proxy.Reconcile.Brokers.Justified.{
  NotAmong, IsIndexed, index_brokers-Entries, broker_tasks-Justified,
}
use service_broker_proxy.Reconcile.Brokers.Complete.{IsKeyFree, desired_served, stale_deleted}
use service_broker_proxy.Reconcile.Brokers.Platform.{renamed, listing, without-Memᴰ, IsWilling}
use service_broker_proxy.Reconcile.Brokers.Platform.Effects.{apply_tasks, run_tasks-apply}
use service_broker_proxy.Reconcile.Brokers.Converged.{IsRight, IsOrderly, IsJust, HasNoProxy}
use service_broker_proxy.Prelude.Dict.Entries.{Entries-lookup}
use service_broker_proxy.Reconcile.Brokers.Settled.{Distinct}
use service_broker_proxy.Reconcile.Brokers.Necessary.{Necessary}
use service_broker_proxy.Reconcile.Brokers.Converged.Again.{unproxied, tasks-Necessary}
use service_broker_proxy.Reconcile.Brokers.Converged.Left.{AllSettled, left-IsDesired}
use service_broker_proxy.Reconcile.Brokers.Converged.Served.{serving-IsRight}
use service_broker_proxy.Reconcile.Brokers.Converged.Tasks.{IsNeeded, has-Serving}

unchanged :
    (guid name url : String) (b : ServiceBroker) → b.guid ≢ guid → renamed guid name url b ≡ b
unchanged guid name url b n = rw (test_of_ne b.guid guid n)

desired_or_not :
    (k : String) (ds : List ServiceBroker)
    → ((d : ServiceBroker) × Memᴰ d ds × (d.guid ≡ k)) ⊎ NotAmong k ds
desired_or_not k [] = inr tt
desired_or_not k (d ∷ ds) = elim (Bool-cases (d.guid == k)) [
  | inl e ↦ inl (d, Memᴰ.head refl, (eq_iff d.guid k).0 e)
  | inr e ↦ elim (desired_or_not k ds) [
    | inl (x, m, q) ↦ inl (x, Memᴰ.tail m, q)
    | inr n ↦ inr (ne_of_test d.guid k e, n)
  ]
]

module _ (r : ResyncJob) (existing desired : List ServiceBroker) where
  -- A broker that is no proxy, and without the key of a desired broker that has no proxy, if takeover is
  -- enabled.
  pub record IsForeign (b : ServiceBroker) : Type 0 where
    pub no_proxy : (k : String) → proxied_id r b ≢ some k
    pub not_taken :
        (d : ServiceBroker)
        → Memᴰ d desired
        → HasNoProxy r existing d
        → r.options.takeover_enabled ≡ true
        → get_broker_key b ≢ get_broker_key d

  -- The desired brokers and no others have proxies, and all else is as it was.
  pub record IsConverged (left : List ServiceBroker) : Type 0 where
    pub serves :
        (d : ServiceBroker) → Memᴰ d desired → (b : ServiceBroker) × Memᴰ b left × IsRight r d b
    pub serves_only :
        (b : ServiceBroker) (k : String)
        → Memᴰ b left
        → proxied_id r b ≡ some k
        → (d : ServiceBroker) × Memᴰ d desired × (d.guid ≡ k)
    pub leaves : (b : ServiceBroker) → Memᴰ b existing → IsForeign b → Memᴰ b left

  -- Each desired broker may be taken over, or no broker of the platform has its key.
  abbrev pub AreUnblocked : Type 0
  AreUnblocked =
      (d : ServiceBroker)
      → Memᴰ d desired
      → (r.options.takeover_enabled ≡ true) ⊎ IsKeyFree r (get_broker_key d) existing

module _ (r : ResyncJob) (guid_of : String → String) (existing desired : List ServiceBroker)
    (o : IsOrderly r guid_of existing desired) where
  abbrev Ignores : String → Task → Type 0
  Ignores g (update_registration guid d name) = g ≢ guid
  Ignores g (delete_registration c) = g ≢ c.guid
  Ignores g t = Unit

  ignored :
      (b : ServiceBroker)
      → Memᴰ b existing
      → IsForeign r existing desired b
      → (t : Task) → IsJust r guid_of existing desired t
      → Necessary r (index_brokers (proxied_id r) existing) desired t
      → Ignores b.guid t
  ignored b m f (create_registration d name) j x = tt
  ignored b m f (update_registration guid d name) (n, named, (c, g, inl (i, p))) x =
      λ q. f.no_proxy d.guid (ap (proxied_id r) (o.guids b c m i (q ∙ sym g)) ∙ p)
  ignored b m f (update_registration guid d name) (n, named, (c, g, inr (t, (i, p))))
        (k, inl missing) =
      λ q.
        f.not_taken d n (unproxied r existing d missing) t
          (ap get_broker_key (o.guids b c m i (q ∙ sym g)) ∙ some-injective _ _ p)
  ignored b m f (update_registration guid d name) (n, named, (c, g, inr (t, (i, p))))
        (k, inr (y, look, h, wrong)) =
      λ q.
        let (j, a) =
          Entries-lookup (IsIndexed (proxied_id r) existing) d.guid _
            (index_brokers-Entries _ existing) look in
        f.no_proxy d.guid (ap (proxied_id r) (o.guids b y m j (q ∙ sym h)) ∙ a)
  ignored b m f (fetch_catalog guid d name) j x = tt
  ignored b m f (delete_registration c) (k, (i, p), n) x =
      λ q. f.no_proxy k (ap (proxied_id r) (o.guids b c m i q) ∙ p)

  stays :
      (b : ServiceBroker) (ts : List Task) (bs : List ServiceBroker)
      → All (Ignores b.guid) ts
      → Memᴰ b bs
      → Memᴰ b (apply_tasks r guid_of ts bs)
  stays b [] bs h i = i
  stays b (create_registration d name ∷ ts) bs (u, h) i = stays b ts _ h (MemD.append_left _ i)
  stays b (update_registration guid d name ∷ ts) bs (u, h) i = stays b ts _ h (
      MemD.cast (sym (unchanged guid name (proxy_url r d) b u))
        (MemD.map (renamed guid name (proxy_url r d)) i))
  stays b (fetch_catalog guid d name ∷ ts) bs (u, h) i = stays b ts bs h i
  stays b (delete_registration c ∷ ts) bs (u, h) i = stays b ts _ h (without-Memᴰ c.guid bs b i u)

  settled_before :
      AllSettled r guid_of existing desired o.no_slash existing (broker_tasks r [] existing desired)
  settled_before b k i p = elim (desired_or_not k desired) [
    | inl (d, m, e) ↦ inl (d, m, e)
    | inr n ↦
        let (c, j, m, q) = stale_deleted r existing desired b k i p n in
        inr (c, j, ap (λ (x : ServiceBroker). x.guid) (o.ids c b k m i q p))
  ]

  needed :
      (t : Task)
      → Necessary r (index_brokers (proxied_id r) existing) desired t
      → IsNeeded r existing t
  needed (create_registration d name) (i, missing) = unproxied r existing d missing
  needed (update_registration guid d name) n = tt
  needed (fetch_catalog guid d name) n = tt
  needed (delete_registration c) n = tt

  just_and_needed :
      (b : ServiceBroker)
      → Memᴰ b existing
      → IsForeign r existing desired b
      → (ts : List Task) → All (IsJust r guid_of existing desired) ts
      → All (Necessary r (index_brokers (proxied_id r) existing) desired) ts
      → All (Ignores b.guid) ts
  just_and_needed b m f [] js ns = tt
  just_and_needed b m f (t ∷ ts) (j, js) (n, ns) =
      (ignored b m f t j n, just_and_needed b m f ts js ns)

  tasks-IsConverged :
      AreUnblocked r existing desired
      → Distinct desired
      → IsConverged r existing desired
          (apply_tasks r guid_of (broker_tasks r [] existing desired) existing)
  tasks-IsConverged free distinct =
      let tasks = broker_tasks r [] existing desired in
      let just = broker_tasks-Justified r [] existing desired in
      let (necessary, _) = tasks-Necessary r [] existing desired distinct in
      record {
        serves = λ d m. serving-IsRight r guid_of d (o.no_slash d m) tasks existing (
            has-Serving r guid_of existing desired o d m tasks just (All-map needed tasks necessary)
              (desired_served r [] existing desired d m (free d m)));
        serves_only =
            left-IsDesired r guid_of existing desired o.no_slash tasks existing just settled_before;
        leaves = λ b m f. stays b tasks existing (just_and_needed b m f tasks just necessary) m;
      }

module _ (env : Env) (r : ResyncJob) (guid_of : String → String) (initial : List ServiceBroker)
    (w : IsWilling guid_of initial env) where
  pub listed :
      (s : Log) (bs : List ServiceBroker)
      → env.get_brokers s ≡ ok bs
      → listing guid_of initial s ≡ bs
  listed s bs e = let p = w.lists s in cc

  pub listing-reconcile :
      (s : Log) (existing desired : List ServiceBroker) (lags : List ℕ)
      → env.loop_lags s ≡ lags
      → listing guid_of initial (reconcile_brokers env r existing desired s).1
        ≡ apply_tasks r guid_of (broker_tasks r lags existing desired) (listing guid_of initial s)
  unfolding reconcile_brokers schedule_all ◌>>=◌
  listing-reconcile s existing desired lags e =
      rw e (run_tasks-apply r guid_of initial env w (broker_tasks r lags existing desired) 0 s)

  -- If the tasks of a resync run one after the other, the platform and the Service Manager refuse
  -- no call and the platform lists its brokers as the calls so far made them, GUIDs, ids and keys
  -- tell brokers apart, the platform gives each new broker a GUID that depends on its id only and
  -- that, for a desired broker without a proxy, none of its brokers has, no proxy has the name and
  -- the URL of a desired broker, each desired broker may be taken over or none has its key, the ids
  -- have no slash and no two desired brokers have the same one, and the deletions read the loop
  -- variable at once: after reconcileBrokers on the listed brokers the platform lists, for each
  -- desired broker, one that the job takes for its proxy, with the proxy name and a URL of the
  -- proxy; every broker that the job takes for a proxy is one of a desired broker; and each broker
  -- that is no proxy and, if takeover is enabled, does not have the key of a desired broker without
  -- a proxy is listed as before.
  pub reconcile_brokers-IsConverged :
      (s : Log) (existing desired left : List ServiceBroker)
      (o : IsOrderly r guid_of existing desired)
      → AreUnblocked r existing desired
      → Distinct desired
      → env.loop_lags s ≡ []
      → env.get_brokers s ≡ ok existing
      → env.get_brokers (reconcile_brokers env r existing desired s).1 ≡ ok left
      → IsConverged r existing desired left
  reconcile_brokers-IsConverged s existing desired left o free distinct at_once before behind =
      subst (IsConverged r existing desired)
        (ap (apply_tasks r guid_of (broker_tasks r [] existing desired))
            (sym (listed s existing before))
          ∙ sym (listing-reconcile s existing desired [] at_once)
          ∙ listed _ left behind)
        (tasks-IsConverged r guid_of existing desired o free distinct)
