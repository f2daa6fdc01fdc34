-- ===== src/Reconcile/Brokers/Converged/Steps.antt =====
-- reconcileBrokers makes no second proxy for an id: task by task.
use mathlib.Core.List.{Memᴰ}
use mathlib.Core.List.Memᴰ as MemD
use service_broker_proxy.Prelude.{
  String, ◌≡◌, sym, ap, ◌∙◌, ◌≢◌, ◌⊎◌, inl, inr, some, List, [], ◌∷◌, ◌++◌, map, subst, All,
  All-map, ◌==◌, eq_iff, Bool-cases, ne_of_test,
}
use service_broker_proxy.Types.{ServiceBroker}
use service_broker_proxy.Reconcile.Urls.Ids.{HasNoSlash}
use service_broker_proxy.Reconcile.Job.{ResyncJob, proxy_url}
use service_broker_proxy.Reconcile.Brokers.{Task, proxied_id}
use service_broker_proxy.Reconcile.Brokers.Necessary.{Apart}
use service_broker_proxy.Reconcile.Brokers.Platform.{renamed, renamed-guid}
use service_broker_proxy.Reconcile.Brokers.Converged.{proxied_id-url}
use service_broker_proxy.Reconcile.Brokers.Converged.Unique.{
  IsUnique, Grows, IsOld, IsNew, Pending-grows, guids_of, ids_of,
}

All-pair : (P Q : Task → Type 0) (ts : List Task) → All P ts → All Q ts → All (λ t. P t × Q t) ts
All-pair P Q [] h k = tt
All-pair P Q (t ∷ ts) (h, hs) (k, ks) = ((h, k), All-pair P Q ts hs ks)

module _ (r : ResyncJob) (guid_of : String → String)
    (apart : (s t : String) → guid_of s ≡ guid_of t → s ≡ t) where
  pub grown :
      (bs cs : List ServiceBroker) (d : ServiceBroker) (guid : String) (t : Task) (ts : List Task)
      → Grows r guid_of bs cs d guid
      → IsUnique r guid_of bs (t ∷ ts)
      → All (Apart r d.guid) ts
      → IsUnique r guid_of cs ts
  grown bs cs d guid t ts w u a = record {
    guids =
        λ b c i j. guids_of r guid_of bs cs d guid w b c u.guids i j (w.either b i) (w.either c j);
    ids =
        λ b c k i j. ids_of r guid_of bs cs d guid w b c k u.ids i j (w.either b i) (w.either c j);
    pending = All-map (Pending-grows r guid_of bs cs d guid w) ts (All-pair _ _ ts u.pending.1 a);
  }

  module _ (bs : List ServiceBroker) (d : ServiceBroker) (h : HasNoSlash d.guid) where
    module _ (name : String)
        (none_yet : (b : ServiceBroker) → Memᴰ b bs → proxied_id r b ≡ some d.guid → ⊥)
        (unused : (b : ServiceBroker) → Memᴰ b bs → guid_of d.guid ≢ b.guid) where
      abbrev pub made : ServiceBroker
      made = record { guid = guid_of d.guid; name = name; broker_url = proxy_url r d }

      made-IsNew :
          (b : ServiceBroker) → b ≡ made → IsNew r guid_of bs (bs ++ made ∷ []) d (guid_of d.guid) b
      made-IsNew b e = (
        proxied_id-url r d b h (ap (λ (x : ServiceBroker). x.broker_url) e),
        ap (λ (x : ServiceBroker). x.guid) e,
      )

      new_one :
          (b : ServiceBroker) → Memᴰ b (bs ++ made ∷ []) → proxied_id r b ≡ some d.guid → b ≡ made
      new_one b i q = elim (MemD.append_cases bs i) [
        | inl j ↦ absurd (none_yet b j q)
        | inr j ↦ MemD.eq_of_singleton j
      ]

      pub create-Grows : Grows r guid_of bs (bs ++ made ∷ []) d (guid_of d.guid)
      create-Grows = record {
        either = λ b i. elim (MemD.append_cases bs i) [
          | inl j ↦ inl (j, none_yet b j, λ q. unused b j (sym q))
          | inr j ↦ inr (made-IsNew b (MemD.eq_of_singleton j))
        ];
        one = λ b c i j x y. new_one b i x.0 ∙ sym (new_one c j y.0);
        fresh = λ e b n q i x p. n (apart e.guid d.guid (p ∙ x.1));
      }

    module _ (guid name : String)
        (guids : (b c : ServiceBroker) → Memᴰ b bs → Memᴰ c bs → b.guid ≡ c.guid → b ≡ c)
        (no_other : (b : ServiceBroker)
          → Memᴰ b bs
          → proxied_id r b ≡ some d.guid
          → b.guid ≡ guid) where
      abbrev pub f : ServiceBroker → ServiceBroker
      f = renamed guid name (proxy_url r d)

      abbrev Old : ServiceBroker → Type 0
      Old = IsOld r guid_of bs (map f bs) d guid

      abbrev New : ServiceBroker → Type 0
      New = IsNew r guid_of bs (map f bs) d guid

      renamed-either : (x : ServiceBroker) → Memᴰ x bs → Old (f x) ⊎ New (f x)
      renamed-either x m = elim (Bool-cases (x.guid == guid)) [
        | inl e ↦ inr (
          proxied_id-url r d (f x) h (rw e),
          renamed-guid guid name (proxy_url r d) x ∙ (eq_iff x.guid guid).0 e,
        )
        | inr e ↦ let n = ne_of_test x.guid guid e in rw e (inl (m, λ q. n (no_other x m q), n))
      ]

      from :
          (b : ServiceBroker)
          → Memᴰ b (map f bs)
          → (x : ServiceBroker) × Memᴰ x bs × (f x ≡ b) × (x.guid ≡ b.guid)
      from b i =
          let (x, m, e) = MemD.of_map f bs i in
          (
            x,
            m,
            e,
            sym (renamed-guid guid name (proxy_url r d) x) ∙ ap (λ (y : ServiceBroker). y.guid) e,
          )

      pub update-Grows : Grows r guid_of bs (map f bs) d guid
      update-Grows = record {
        either =
            λ b i. let (x, m, e, g) = from b i in subst (λ y. Old y ⊎ New y) e (renamed-either x m);
        one = λ b c i j p q.
            let (x, m, e, g) = from b i in
            let (y, n, e', g') = from c j in
            sym e ∙ ap f (guids x y m n (g ∙ p.1 ∙ sym (g' ∙ q.1))) ∙ e';
        fresh = λ e b n q i x p. let (y, m, _, g) = from b i in q y m (p ∙ sym g);
      }
