-- ===== src/Reconcile/Brokers/Justified.antt =====
-- The tasks of reconcileBrokers, and the brokers of both sides that they are for.
use mathlib.Core.List.{Memᴰ}
use service_broker_proxy.Prelude.{
  ℕ, zero, suc, String, ◌≡◌, refl, ◌≢◌, ◌⊎◌, inl, inr, true, Option, none, some, List, [], ◌∷◌,
  starts_with, ◌==◌, eq_iff, All, All-append, All-if, All-map, Bool-cases,
}
use service_broker_proxy.Prelude.Dict.{Dict, values}
use service_broker_proxy.Prelude.Dict.Entries.{
  Entries, Entries-insert, Entries-erase, Entries-lookup,
}
use service_broker_proxy.Types.{ServiceBroker}
use service_broker_proxy.Reconcile.Urls.{get_broker_key}
use service_broker_proxy.Reconcile.Job.{ResyncJob, proxy_name}
use service_broker_proxy.Reconcile.Brokers.{
  Task, create_registration, update_registration, fetch_catalog, delete_registration, proxied_id,
  broker_key, add_to_index, index_loop, index_brokers, resync_taken_over, resync_not_taken_over,
  resync_desired, loop_variable, delete_loop, reconcile_loop, broker_tasks,
}

-- No desired broker has the id.
abbrev pub NotAmong : String → List ServiceBroker → Type 0
NotAmong k [] = Unit
NotAmong k (d ∷ ds) = (d.guid ≢ k) × NotAmong k ds

-- A broker that the indexing function gives the key.
abbrev pub IsIndexed :
    (ServiceBroker → Option String) → List ServiceBroker → String → ServiceBroker → Type 0
IsIndexed key bs k b = Memᴰ b bs × (key b ≡ some k)

module _ (r : ResyncJob) where
  -- `Q k b`: the platform broker `b` is a proxy for the id `k`; `K k b`: it has the key `k`.
  abbrev pub Justified :
      (String → ServiceBroker → Type 0)
      → (String → ServiceBroker → Type 0)
      → List ServiceBroker
      → Task
      → Type 0
  Justified Q K ds (create_registration d name) = Memᴰ d ds × (name ≡ proxy_name r d)
  Justified Q K ds (update_registration guid d name) =
      Memᴰ d ds
      × (name ≡ proxy_name r d)
      × ((b : ServiceBroker) × (b.guid ≡ guid)
          × (Q d.guid b ⊎ ((r.options.takeover_enabled ≡ true) × K (get_broker_key d) b)))
  Justified Q K ds (fetch_catalog guid d name) =
      Memᴰ d ds
      × (name ≡ proxy_name r d)
      × ((b : ServiceBroker) × (b.guid ≡ guid)
          × Q d.guid b
          × (b.name ≡ proxy_name r d)
          × (starts_with b.broker_url r.sm_path ≡ true))
  Justified Q K ds (delete_registration b) = (k : String) × Q k b × NotAmong k ds

add_to_index-Entries :
    (P : String → ServiceBroker → Type 0) (o : Option String) (b : ServiceBroker)
    (m : Dict ServiceBroker)
    → ((k : String) → o ≡ some k → P k b)
    → Entries P m
    → Entries P (add_to_index o b m)
unfolding add_to_index
add_to_index-Entries P none b m h e = e
add_to_index-Entries P (some k) b m h e = Entries-insert P k b m (h k refl) e

index_loop-Entries :
    (key : ServiceBroker → Option String) (P : String → ServiceBroker → Type 0)
    (bs : List ServiceBroker) (m : Dict ServiceBroker)
    → ((k : String) (b : ServiceBroker) → Memᴰ b bs → key b ≡ some k → P k b)
    → Entries P m
    → Entries P (index_loop key bs m)
unfolding index_loop
index_loop-Entries key P [] m h e = e
index_loop-Entries key P (b ∷ bs) m h e =
    index_loop-Entries key P bs _ (λ k x i q. h k x (Memᴰ.tail i) q)
      (add_to_index-Entries P (key b) b m (λ k q. h k b (Memᴰ.head refl) q) e)

pub index_brokers-Entries :
    (key : ServiceBroker → Option String) (bs : List ServiceBroker)
    → Entries (IsIndexed key bs) (index_brokers key bs)
unfolding index_brokers
index_brokers-Entries key bs = index_loop-Entries key _ bs [] (λ k b i q. (i, q)) tt

module _ (r : ResyncJob) (K : String → ServiceBroker → Type 0) where
  -- The tasks of the rest of the loop are justified by all desired brokers.
  weaken :
      (Q : String → ServiceBroker → Type 0) (d : ServiceBroker) (ds : List ServiceBroker) (t : Task)
      → Justified r (λ k b. Q k b × (d.guid ≢ k)) K ds t
      → Justified r Q K (d ∷ ds) t
  weaken Q d ds (create_registration x name) (i, e) = (Memᴰ.tail i, e)
  weaken Q d ds (update_registration guid x name) (i, e, (b, g, inl (q, n))) =
      (Memᴰ.tail i, e, (b, g, inl q))
  weaken Q d ds (update_registration guid x name) (i, e, (b, g, inr k)) =
      (Memᴰ.tail i, e, (b, g, inr k))
  weaken Q d ds (fetch_catalog guid x name) (i, e, (b, g, (q, n), bn, bu)) =
      (Memᴰ.tail i, e, (b, g, q, bn, bu))
  weaken Q d ds (delete_registration b) (k, (q, n), rest) = (k, q, (n, rest))

  loop_variable-Justified :
      (Q : String → ServiceBroker → Type 0) (k : String) (b : ServiceBroker)
      (m : Dict ServiceBroker) (lag : ℕ)
      → Q k b
      → Entries Q m
      → Justified r Q K [] (delete_registration (loop_variable b (values m) lag))
  unfolding loop_variable values
  loop_variable-Justified Q k b m zero q h = (k, q, tt)
  loop_variable-Justified Q k b [] (suc lag) q h = (k, q, tt)
  loop_variable-Justified Q k b ((j, c) ∷ m) (suc lag) q h =
      loop_variable-Justified Q j c m lag h.0 h.1

  deletes-Justified :
      (Q : String → ServiceBroker → Type 0) (m : Dict ServiceBroker) (lags : List ℕ)
      → Entries Q m
      → All (Justified r Q K []) (delete_loop (values m) lags)
  unfolding values delete_loop
  deletes-Justified Q [] lags h = tt
  deletes-Justified Q ((k, b) ∷ m) [] h = ((k, h.0, tt), deletes-Justified Q m [] h.1)
  deletes-Justified Q ((k, b) ∷ m) (lag ∷ lags) h =
      (loop_variable-Justified Q k b m lag h.0 h.1, deletes-Justified Q m lags h.1)

  taken_over-Justified :
      (Q : String → ServiceBroker → Type 0) (d b : ServiceBroker) (ds : List ServiceBroker)
      → Q d.guid b
      → All (Justified r Q K (d ∷ ds)) (resync_taken_over r d b)
  unfolding resync_taken_over
  taken_over-Justified Q d b ds q = elim (Bool-cases (b.name == proxy_name r d)) [
    | inr e ↦ rw e ((Memᴰ.head refl, refl, (b, refl, inl q)), tt)
    | inl e ↦ rw e (elim (Bool-cases (starts_with b.broker_url r.sm_path)) [
      | inr u ↦ rw u ((Memᴰ.head refl, refl, (b, refl, inl q)), tt)
      | inl u ↦
          rw u ((Memᴰ.head refl, refl, (b, refl, q, (eq_iff b.name (proxy_name r d)).0 e, u)), tt)
    ])
  ]

  not_taken_over-Justified :
      (Q : String → ServiceBroker → Type 0) (d : ServiceBroker) (ds : List ServiceBroker)
      (o : Option ServiceBroker)
      → ((b : ServiceBroker) → o ≡ some b → K (get_broker_key d) b)
      → All (Justified r Q K (d ∷ ds)) (resync_not_taken_over r d o)
  unfolding resync_not_taken_over
  not_taken_over-Justified Q d ds none h = ((Memᴰ.head refl, refl), tt)
  not_taken_over-Justified Q d ds (some b) h =
      All-if _ r.options.takeover_enabled _ []
        (λ e. ((Memᴰ.head refl, refl, (b, refl, inr (e, h b refl))), tt)) (λ e. tt)

  desired-Justified :
      (Q : String → ServiceBroker → Type 0) (d : ServiceBroker) (ds : List ServiceBroker)
      (o : Option ServiceBroker) (keys : Dict ServiceBroker)
      → ((b : ServiceBroker) → o ≡ some b → Q d.guid b)
      → Entries K keys
      → All (Justified r Q K (d ∷ ds)) (resync_desired r d o keys)
  unfolding resync_desired
  desired-Justified Q d ds (some b) keys q h = taken_over-Justified Q d b ds (q b refl)
  desired-Justified Q d ds none keys q h =
      not_taken_over-Justified Q d ds _ (λ b e. Entries-lookup K (get_broker_key d) keys h e)

  reconcile_loop-Justified :
      (ds : List ServiceBroker) (Q : String → ServiceBroker → Type 0) (lags : List ℕ)
      (proxied keys : Dict ServiceBroker)
      → Entries Q proxied
      → Entries K keys
      → All (Justified r Q K ds) (reconcile_loop r ds lags proxied keys)
  unfolding reconcile_loop
  reconcile_loop-Justified [] Q lags proxied keys q h = deletes-Justified Q proxied lags q
  reconcile_loop-Justified (d ∷ ds) Q lags proxied keys q h =
      All-append _ _ _
        (desired-Justified Q d ds _ keys (λ b e. Entries-lookup Q d.guid proxied q e) h)
        (All-map (weaken Q d ds) _
          (reconcile_loop-Justified ds _ lags _ keys (Entries-erase Q d.guid proxied q) h))

-- Each scheduled task is justified. A create is for a desired broker, under its proxy name. An update
-- is for a desired broker and changes a broker of the platform that is a proxy for it, or, only if
-- takeover is enabled, one with the same key. A refetch is for a desired broker whose proxy has the
-- proxy name and a URL under the proxy's path. A delete removes a proxy of the platform whose id no
-- desired broker has; so no broker that is not a proxy is ever deleted.
pub broker_tasks-Justified :
    (r : ResyncJob) (lags : List ℕ) (existing desired : List ServiceBroker)
    → All
        (Justified r (IsIndexed (proxied_id r) existing) (IsIndexed broker_key existing) desired)
        (broker_tasks r lags existing desired)
unfolding broker_tasks
broker_tasks-Justified r lags existing desired =
    reconcile_loop-Justified r _ desired _ lags _ _ (index_brokers-Entries (proxied_id r) existing)
      (index_brokers-Entries broker_key existing)
