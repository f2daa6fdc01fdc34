-- ===== src/Reconcile/Brokers/Complete.antt =====
-- The tasks of reconcileBrokers: which brokers of both sides get one.
use mathlib.Core.List.{Memᴰ}
use mathlib.Core.List.Memᴰ as MemD
use mathlib.Core.Option.{some-injective}
use service_broker_proxy.Prelude.{
  ℕ, String, ◌≡◌, refl, sym, ap, subst, ◌∙◌, ◌≢◌, ◌⊎◌, inl, inr, true, false, Bool, Option, none,
  some, List, [], ◌∷◌, ◌++◌, ◌==◌, eq_refl, arith, All, Bool-cases, test_of_ne, if◌then◌else◌,
}
use service_broker_proxy.Prelude.Dict.{Dict, lookup, erase, values, lookup-erase}
use service_broker_proxy.Prelude.Dict.Entries.{Entries-lookup}
use service_broker_proxy.Types.{ServiceBroker}
use service_broker_proxy.Reconcile.Urls.{get_broker_key}
use service_broker_proxy.Reconcile.Job.{ResyncJob}
use service_broker_proxy.Reconcile.Brokers.{
  Task, create_registration, update_registration, fetch_catalog, delete_registration, proxied_id,
  broker_key, index_brokers, resync_taken_over, resync_not_taken_over, resync_desired, delete_loop,
  reconcile_loop, broker_tasks,
}
use service_broker_proxy.Reconcile.Brokers.Index.{has_key, last_with, lookup-index_brokers}
use service_broker_proxy.Reconcile.Brokers.Justified.{NotAmong, IsIndexed, index_brokers-Entries}

-- The task registers or updates the desired broker.
abbrev pub IsFor : ServiceBroker → Task → Type 0
IsFor d (create_registration b name) = b ≡ d
IsFor d (update_registration guid b name) = b ≡ d
IsFor d (fetch_catalog guid b name) = b ≡ d
IsFor d (delete_registration b) = ⊥

abbrev pub Has : (Task → Type 0) → List Task → Type 0
Has P ts = (t : Task) × Memᴰ t ts × P t

Has-if :
    (P : Task → Type 0) (b : Bool) (ts us : List Task)
    → Has P ts
    → Has P us
    → Has P (if b then ts else us)
Has-if P true ts us h k = h
Has-if P false ts us h k = k

Has-append_left : (P : Task → Type 0) (ts us : List Task) → Has P ts → Has P (ts ++ us)
Has-append_left P ts us (t, i, p) = (t, MemD.append_left us i, p)

Has-append_right : (P : Task → Type 0) (ts us : List Task) → Has P us → Has P (ts ++ us)
Has-append_right P ts us (t, i, p) = (t, MemD.append_right ts i, p)

module _ (r : ResyncJob) where
  taken_over-Has : (d b : ServiceBroker) → Has (IsFor d) (resync_taken_over r d b)
  unfolding resync_taken_over
  taken_over-Has d b = Has-if _ _ _ _ (_, Memᴰ.head refl, refl) (_, Memᴰ.head refl, refl)

  -- Takeover is enabled, or no broker has the key.
  abbrev IsUnblocked : Option ServiceBroker → Type 0
  IsUnblocked o = (r.options.takeover_enabled ≡ true) ⊎ (o ≡ none)

  not_taken_over-Has :
      (d : ServiceBroker) (o : Option ServiceBroker)
      → IsUnblocked o
      → Has (IsFor d) (resync_not_taken_over r d o)
  unfolding resync_not_taken_over
  not_taken_over-Has d none u = (_, Memᴰ.head refl, refl)
  not_taken_over-Has d (some b) (inl e) = rw e (_, Memᴰ.head refl, refl)
  not_taken_over-Has d (some b) (inr e) = ground arith

  desired-Has :
      (d : ServiceBroker) (o : Option ServiceBroker) (keys : Dict ServiceBroker)
      → IsUnblocked (lookup (get_broker_key d) keys)
      → Has (IsFor d) (resync_desired r d o keys)
  unfolding resync_desired
  desired-Has d (some b) keys u = taken_over-Has d b
  desired-Has d none keys u = not_taken_over-Has d _ u

  reconcile_loop-Has :
      (d : ServiceBroker) (ds : List ServiceBroker) (proxied keys : Dict ServiceBroker)
      (lags : List ℕ)
      → Memᴰ d ds
      → IsUnblocked (lookup (get_broker_key d) keys)
      → Has (IsFor d) (reconcile_loop r ds lags proxied keys)
  unfolding reconcile_loop
  reconcile_loop-Has d [] proxied keys lags i u = elim i [ ]
  reconcile_loop-Has d (x ∷ ds) proxied keys lags (Memᴰ.head e) u =
      subst (λ y. Has (IsFor y) (reconcile_loop r (x ∷ ds) lags proxied keys)) (sym e)
        (Has-append_left _ _ _
          (desired-Has x _ keys (subst (λ y. IsUnblocked (lookup (get_broker_key y) keys)) e u)))
  reconcile_loop-Has d (x ∷ ds) proxied keys lags (Memᴰ.tail i) u =
      Has-append_right _ _ _ (reconcile_loop-Has d ds (erase x.guid proxied) keys lags i u)

  -- No broker of the platform has the key.
  abbrev pub IsKeyFree : String → List ServiceBroker → Type 0
  IsKeyFree k = All (λ b. get_broker_key b ≢ k)

  last_with-IsKeyFree :
      (k : String) (bs : List ServiceBroker)
      → IsKeyFree k bs
      → last_with broker_key k bs none ≡ none
  unfolding last_with
  last_with-IsKeyFree k [] h = refl
  last_with-IsKeyFree k (b ∷ bs) (n, h) =
      rw (test_of_ne (get_broker_key b) k n) (last_with-IsKeyFree k bs h)

  -- Every desired broker gets a task that registers, updates or refetches it, unless takeover is
  -- disabled and a broker of the platform has its key.
  pub desired_served :
      (lags : List ℕ) (existing desired : List ServiceBroker) (d : ServiceBroker)
      → Memᴰ d desired
      → (r.options.takeover_enabled ≡ true) ⊎ IsKeyFree (get_broker_key d) existing
      → Has (IsFor d) (broker_tasks r lags existing desired)
  unfolding broker_tasks
  desired_served lags existing desired d i (inl e) = reconcile_loop-Has d desired _ _ lags i (inl e)
  desired_served lags existing desired d i (inr f) = reconcile_loop-Has d desired _ _ lags i (
      inr (
        lookup-index_brokers broker_key (get_broker_key d) existing
        ∙ last_with-IsKeyFree (get_broker_key d) existing f))

  last_with-some :
      (key : ServiceBroker → Option String) (k : String) (bs : List ServiceBroker)
      (b : ServiceBroker)
      → (c : ServiceBroker) × (last_with key k bs (some b) ≡ some c)
  unfolding last_with
  last_with-some key k [] b = (b, refl)
  last_with-some key k (x ∷ bs) b = elim (Bool-cases (has_key (key x) k)) [
    | inl e ↦ rw e (last_with-some key k bs x)
    | inr e ↦ rw e (last_with-some key k bs b)
  ]

  pub last_with-Memᴰ :
      (key : ServiceBroker → Option String) (k : String) (bs : List ServiceBroker)
      (found : Option ServiceBroker) (b : ServiceBroker)
      → Memᴰ b bs
      → key b ≡ some k
      → (c : ServiceBroker) × (last_with key k bs found ≡ some c)
  unfolding last_with
  last_with-Memᴰ key k [] found b i h = elim i [ ]
  last_with-Memᴰ key k (x ∷ bs) found b (Memᴰ.head e) h =
      rw (ap key (sym e) ∙ h, eq_refl k) (last_with-some key k bs x)
  last_with-Memᴰ key k (x ∷ bs) found b (Memᴰ.tail i) h = last_with-Memᴰ key k bs _ b i h

  Has-deletes :
      (k : String) (m : Dict ServiceBroker) {b : ServiceBroker}
      → lookup k m ≡ some b
      → Memᴰ (delete_registration b) (delete_loop (values m) [])
  unfolding lookup values delete_loop
  Has-deletes k [] h = ground arith
  Has-deletes k ((j, w) ∷ m) {b} h = elim (Bool-cases (j == k)) [
    | inl e ↦ Memᴰ.head (ap delete_registration (sym (some-injective w b (rw e at h))))
    | inr e ↦ Memᴰ.tail (Has-deletes k m (rw e at h))
  ]

  reconcile_loop-deletes :
      (k : String) (ds : List ServiceBroker) (proxied keys : Dict ServiceBroker) {b : ServiceBroker}
      → NotAmong k ds
      → lookup k proxied ≡ some b
      → Memᴰ (delete_registration b) (reconcile_loop r ds [] proxied keys)
  unfolding reconcile_loop
  reconcile_loop-deletes k [] proxied keys n h = Has-deletes k proxied h
  reconcile_loop-deletes k (d ∷ ds) proxied keys {b} (e, n) h = MemD.append_right _ (
      reconcile_loop-deletes k ds (erase d.guid proxied) keys n
        (lookup-erase d.guid k proxied ∙ rw (test_of_ne d.guid k e) h))

  -- If each task reads the loop variable at once, then for every proxy of the platform whose id no
  -- desired broker has, a proxy with that id is deleted.
  pub stale_deleted :
      (existing desired : List ServiceBroker) (b : ServiceBroker) (k : String)
      → Memᴰ b existing
      → proxied_id r b ≡ some k
      → NotAmong k desired
      → (c : ServiceBroker) × Memᴰ (delete_registration c) (broker_tasks r [] existing desired)
        × Memᴰ c existing
        × (proxied_id r c ≡ some k)
  unfolding broker_tasks
  stale_deleted existing desired b k i e n =
      let (c, f) = last_with-Memᴰ (proxied_id r) k existing none b i e in
      let found : lookup k (index_brokers (proxied_id r) existing) ≡ some c =
        lookup-index_brokers (proxied_id r) k existing ∙ f in
      let (j, p) =
        Entries-lookup (IsIndexed (proxied_id r) existing) k _ (index_brokers-Entries _ existing)
          found in
      (c, reconcile_loop-deletes k desired _ _ n found, j, p)
