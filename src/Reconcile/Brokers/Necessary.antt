-- ===== src/Reconcile/Brokers/Necessary.antt =====
-- The tasks of reconcileBrokers that change a broker, and why each is there.
use mathlib.Core.List.{Memᴰ}
use service_broker_proxy.Prelude.{
  ℕ, String, ◌≡◌, refl, sym, ap, ◌∙◌, ◌≢◌, ◌⊎◌, inl, inr, Bool, true, false, Option, none, some,
  List, [], ◌∷◌, ◌++◌, starts_with, ◌==◌, test_of_ne, All, All-append, All-if, All-map, Bool-cases,
  if◌then◌else◌, ne_of_test,
}
use service_broker_proxy.Prelude.Dict.{Dict, lookup, erase, values, lookup-erase}
use service_broker_proxy.Types.{ServiceBroker}
use service_broker_proxy.Reconcile.Urls.{get_broker_key}
use service_broker_proxy.Reconcile.Job.{ResyncJob, proxy_name}
use service_broker_proxy.Reconcile.Brokers.{
  Task, create_registration, update_registration, fetch_catalog, delete_registration,
  resync_taken_over, resync_not_taken_over, resync_desired, delete_loop, reconcile_loop,
}
use service_broker_proxy.Reconcile.Brokers.Justified.{NotAmong}
use service_broker_proxy.Reconcile.Brokers.Settled.{Distinct}

module _ (r : ResyncJob) where
  -- The broker does not have the proxy name of the desired one and a URL of the proxy.
  abbrev pub IsWrong : ServiceBroker → ServiceBroker → Type 0
  IsWrong d b = b.name ≡ proxy_name r d → starts_with b.broker_url r.sm_path ≡ true → ⊥

  -- What the index of the proxies has for the id of the desired broker.
  abbrev pub Missing : Dict ServiceBroker → ServiceBroker → Type 0
  Missing m d = lookup d.guid m ≡ none

  abbrev pub Found : Dict ServiceBroker → ServiceBroker → String → Type 0
  Found m d guid = (b : ServiceBroker) × (lookup d.guid m ≡ some b) × (b.guid ≡ guid) × IsWrong d b

  -- A broker is created if the index has none for it, and updated if it has none or a wrong one.
  abbrev pub Necessary : Dict ServiceBroker → List ServiceBroker → Task → Type 0
  Necessary m ds (create_registration d name) = Memᴰ d ds × Missing m d
  Necessary m ds (update_registration guid d name) = Memᴰ d ds × (Missing m d ⊎ Found m d guid)
  Necessary m ds t = Unit

  -- The task does not create or update a broker for the id.
  abbrev pub Apart : String → Task → Type 0
  Apart k (create_registration d name) = d.guid ≢ k
  Apart k (update_registration guid d name) = d.guid ≢ k
  Apart k t = Unit

  -- No two of the tasks create or update a broker for the same id.
  abbrev pub AreApart : List Task → Type 0
  AreApart [] = Unit
  AreApart (create_registration d name ∷ ts) = All (Apart d.guid) ts × AreApart ts
  AreApart (update_registration guid d name ∷ ts) = All (Apart d.guid) ts × AreApart ts
  AreApart (t ∷ ts) = AreApart ts

  NotAmong-Memᴰ :
      (k : String) (ds : List ServiceBroker) (d : ServiceBroker)
      → NotAmong k ds
      → Memᴰ d ds
      → d.guid ≢ k
  NotAmong-Memᴰ k [] d n i = elim i [ ]
  NotAmong-Memᴰ k (x ∷ xs) d n (Memᴰ.head e) =
      λ p. n.0 (ap (λ (y : ServiceBroker). y.guid) (sym e) ∙ p)
  NotAmong-Memᴰ k (x ∷ xs) d n (Memᴰ.tail i) = NotAmong-Memᴰ k xs d n.1 i

  lookup-erase_other :
      (k : String) (d : ServiceBroker) (m : Dict ServiceBroker)
      → d.guid ≢ k
      → lookup d.guid (erase k m) ≡ lookup d.guid m
  lookup-erase_other k d m n = lookup-erase k d.guid m ∙ rw (test_of_ne k d.guid (λ p. n (sym p)))

  -- The tasks for the rest of the desired brokers.
  later :
      (k : String) (e : ServiceBroker) (ds : List ServiceBroker) (m : Dict ServiceBroker)
      → NotAmong k ds
      → (t : Task) → Necessary (erase k m) ds t
      → Necessary m (e ∷ ds) t × Apart k t
  later k e ds m n (create_registration d name) (i, q) =
      let other = NotAmong-Memᴰ k ds d n i in
      ((Memᴰ.tail i, sym (lookup-erase_other k d m other) ∙ q), other)
  later k e ds m n (update_registration guid d name) (i, inl q) =
      let other = NotAmong-Memᴰ k ds d n i in
      ((Memᴰ.tail i, inl (sym (lookup-erase_other k d m other) ∙ q)), other)
  later k e ds m n (update_registration guid d name) (i, inr (b, q, g, w)) =
      let other = NotAmong-Memᴰ k ds d n i in
      ((Memᴰ.tail i, inr (b, sym (lookup-erase_other k d m other) ∙ q, g, w)), other)
  later k e ds m n (fetch_catalog guid d name) q = (tt, tt)
  later k e ds m n (delete_registration b) q = (tt, tt)

  taken_over-Necessary :
      (d b : ServiceBroker) (ds : List ServiceBroker) (m : Dict ServiceBroker)
      → lookup d.guid m ≡ some b
      → All (Necessary m (d ∷ ds)) (resync_taken_over r d b)
  unfolding resync_taken_over
  taken_over-Necessary d b ds m f = elim (Bool-cases (b.name == proxy_name r d)) [
    | inr e ↦ rw e ((Memᴰ.head refl, inr (b, f, refl, λ p q. ne_of_test _ _ e p)), tt)
    | inl e ↦ rw e (elim (Bool-cases (starts_with b.broker_url r.sm_path)) [
      | inr u ↦
          rw u
            ((Memᴰ.head refl, inr (b, f, refl, λ p q. let x : true ≡ false = sym q ∙ u in cc)), tt)
      | inl u ↦ rw u (tt, tt)
    ])
  ]

  not_taken_over-Necessary :
      (d : ServiceBroker) (o : Option ServiceBroker) (ds : List ServiceBroker)
      (m : Dict ServiceBroker)
      → Missing m d
      → All (Necessary m (d ∷ ds)) (resync_not_taken_over r d o)
  unfolding resync_not_taken_over
  not_taken_over-Necessary d none ds m f = ((Memᴰ.head refl, f), tt)
  not_taken_over-Necessary d (some b) ds m f =
      All-if _ r.options.takeover_enabled _ [] (λ e. ((Memᴰ.head refl, inl f), tt)) (λ e. tt)

  desired-Necessary :
      (d : ServiceBroker) (o : Option ServiceBroker) (ds : List ServiceBroker)
      (m keys : Dict ServiceBroker)
      → lookup d.guid m ≡ o
      → All (Necessary m (d ∷ ds)) (resync_desired r d o keys)
  unfolding resync_desired
  desired-Necessary d (some b) ds m keys f = taken_over-Necessary d b ds m f
  desired-Necessary d none ds m keys f = not_taken_over-Necessary d _ ds m f

  deletes-Necessary :
      (m : Dict ServiceBroker) (bs : List ServiceBroker) (lags : List ℕ)
      → All (Necessary m []) (delete_loop bs lags) × AreApart (delete_loop bs lags)
  unfolding delete_loop
  deletes-Necessary m [] lags = (tt, tt)
  deletes-Necessary m (b ∷ bs) [] = let (n, a) = deletes-Necessary m bs [] in ((tt, n), a)
  deletes-Necessary m (b ∷ bs) (lag ∷ lags) =
      let (n, a) = deletes-Necessary m bs lags in ((tt, n), a)

  AreApart-if :
      (b : Bool) (ts us rest : List Task)
      → AreApart (ts ++ rest)
      → AreApart (us ++ rest)
      → AreApart ((if b then ts else us) ++ rest)
  AreApart-if true ts us rest h k = h
  AreApart-if false ts us rest h k = k

  desired-AreApart :
      (d : ServiceBroker) (o : Option ServiceBroker) (keys : Dict ServiceBroker) (rest : List Task)
      → All (Apart d.guid) rest
      → AreApart rest
      → AreApart (resync_desired r d o keys ++ rest)
  unfolding resync_desired resync_taken_over
  desired-AreApart d (some b) keys rest h a =
      AreApart-if _ (update_registration b.guid d (proxy_name r d) ∷ [])
        (fetch_catalog b.guid d (proxy_name r d) ∷ []) rest (h, a) a
  desired-AreApart d none keys rest h a = not_taken (lookup (get_broker_key d) keys)
    where
      not_taken : (o : Option ServiceBroker) → AreApart (resync_not_taken_over r d o ++ rest)
      not_taken none = unfold resync_not_taken_over in (h, a)
      not_taken (some b) =
          unfold resync_not_taken_over in
          AreApart-if r.options.takeover_enabled
            (update_registration b.guid d (proxy_name r d) ∷ []) [] rest (h, a) a

  All-unzip : (P Q : Task → Type 0) (ts : List Task) → All (λ t. P t × Q t) ts → All P ts × All Q ts
  All-unzip P Q [] h = (tt, tt)
  All-unzip P Q (t ∷ ts) ((p, q), h) = let (ps, qs) = All-unzip P Q ts h in ((p, ps), (q, qs))

  -- Every task is necessary, and no two are for the same id.
  pub reconcile_loop-Necessary :
      (ds : List ServiceBroker) (lags : List ℕ) (m keys : Dict ServiceBroker)
      → Distinct ds
      → All (Necessary m ds) (reconcile_loop r ds lags m keys)
        × AreApart (reconcile_loop r ds lags m keys)
  unfolding reconcile_loop
  reconcile_loop-Necessary [] lags m keys u = deletes-Necessary m (values m) lags
  reconcile_loop-Necessary (d ∷ ds) lags m keys (u, us) =
      let (n, a) = reconcile_loop-Necessary ds lags (erase d.guid m) keys us in
      let (ns, as') =
        All-unzip (Necessary m (d ∷ ds)) (Apart d.guid) _ (All-map (later d.guid d ds m u) _ n) in
      (
        All-append _ _ _ (desired-Necessary d _ ds m keys refl) ns,
        desired-AreApart d _ keys _ as' a,
      )
