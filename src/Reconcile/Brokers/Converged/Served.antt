-- ===== src/Reconcile/Brokers/Converged/Served.antt =====
-- Which proxies reconcileBrokers makes or keeps for a desired broker.
use mathlib.Core.List.{Memᴰ}
use mathlib.Core.List.Memᴰ as MemD
use service_broker_proxy.Prelude.{
  String, ◌≡◌, refl, sym, ap, ◌∙◌, ◌≢◌, inl, inr, List, [], ◌∷◌, subst, All, ◌==◌, eq_iff,
  Bool-cases,
}
use service_broker_proxy.Types.{ServiceBroker}
use service_broker_proxy.Reconcile.Urls.Ids.{HasNoSlash}
use service_broker_proxy.Reconcile.Job.{ResyncJob, proxy_name, proxy_url}
use service_broker_proxy.Reconcile.Brokers.{
  Task, create_registration, update_registration, fetch_catalog, delete_registration,
}
use service_broker_proxy.Reconcile.Brokers.Platform.{renamed, renamed-guid, without-Memᴰ}
use service_broker_proxy.Reconcile.Brokers.Platform.Effects.{apply_task, apply_tasks}
use service_broker_proxy.Reconcile.Brokers.Converged.{IsRight, IsRight-intro}

-- What the task does to the broker with the GUID, it does for the desired broker.
abbrev pub Spares : ResyncJob → ServiceBroker → String → Task → Type 0
Spares r d g (update_registration guid e name) = g ≡ guid → (e ≡ d) × (name ≡ proxy_name r d)
Spares r d g (delete_registration b) = g ≢ b.guid
Spares r d g t = Unit

module _ (r : ResyncJob) (guid_of : String → String) (d : ServiceBroker) where
  -- There is a right proxy, which the tasks that are left spare, or one of them makes it.
  pub data Serving (bs : List ServiceBroker) (ts : List Task) : Type 0 where
    served :
        (b : ServiceBroker) → Memᴰ b bs → IsRight r d b → All (Spares r d b.guid) ts → Serving bs ts
    to_create :
        Memᴰ (create_registration d (proxy_name r d)) ts
        → All (Spares r d (guid_of d.guid)) ts
        → Serving bs ts
    to_update :
        (b : ServiceBroker) (g : String)
        → Memᴰ b bs
        → b.guid ≡ g
        → Memᴰ (update_registration g d (proxy_name r d)) ts
        → All (Spares r d g) ts
        → Serving bs ts

  module _ (h : HasNoSlash d.guid) where
    -- A broker that is spared stays, and stays right.
    renamed-IsRight :
        (guid name : String) (e b : ServiceBroker)
        → Spares r d b.guid (update_registration guid e name)
        → IsRight r d b
        → IsRight r d (renamed guid name (proxy_url r e) b)
    renamed-IsRight guid name e b u q = elim (Bool-cases (b.guid == guid)) [
      | inl t ↦
          let (p, n) = u ((eq_iff b.guid guid).0 t) in
          IsRight-intro r d (renamed guid name (proxy_url r e) b) h (rw t n)
            (rw t (ap (proxy_url r) p))
      | inr t ↦ rw t q
    ]

    persists :
        (t : Task) (bs : List ServiceBroker) (b : ServiceBroker)
        → Memᴰ b bs
        → Spares r d b.guid t
        → (c : ServiceBroker) × Memᴰ c (apply_task r guid_of t bs)
          × (c.guid ≡ b.guid)
          × (IsRight r d b → IsRight r d c)
    persists (create_registration e name) bs b i u = (b, MemD.append_left _ i, refl, λ q. q)
    persists (update_registration guid e name) bs b i u = (
      renamed guid name (proxy_url r e) b,
      MemD.map (renamed guid name (proxy_url r e)) i,
      renamed-guid guid name (proxy_url r e) b,
      renamed-IsRight guid name e b u,
    )
    persists (fetch_catalog guid e name) bs b i u = (b, i, refl, λ q. q)
    persists (delete_registration c) bs b i u = (b, without-Memᴰ c.guid bs b i u, refl, λ q. q)

    made :
        (bs : List ServiceBroker) (ts : List Task)
        → All (Spares r d (guid_of d.guid)) ts
        → Serving (apply_task r guid_of (create_registration d (proxy_name r d)) bs) ts
    made bs ts us =
        served _ (MemD.append_right bs (Memᴰ.head refl)) (IsRight-intro r d _ h refl refl) us

    brought :
        (bs : List ServiceBroker) (ts : List Task) (b : ServiceBroker) (g : String)
        → Memᴰ b bs
        → b.guid ≡ g
        → All (Spares r d g) ts
        → Serving (apply_task r guid_of (update_registration g d (proxy_name r d)) bs) ts
    brought bs ts b g i e us =
        let f = renamed g (proxy_name r d) (proxy_url r d) in
        let t = (eq_iff b.guid g).1 e in
        served (f b) (MemD.map f i) (IsRight-intro r d (f b) h (rw t) (rw t))
          (subst (λ x. All (Spares r d x) ts) (sym (renamed-guid _ _ _ b ∙ e)) us)

    step :
        (t : Task) (ts : List Task) (bs : List ServiceBroker)
        → Serving bs (t ∷ ts)
        → Serving (apply_task r guid_of t bs) ts
    step t ts bs (served b i q (u, us)) =
        let (c, j, e, f) = persists t bs b i u in
        served c j (f q) (subst (λ g. All (Spares r d g) ts) (sym e) us)
    step t ts bs (to_create (Memᴰ.head e) (u, us)) =
        subst (λ x. Serving (apply_task r guid_of x bs) ts) e (made bs ts us)
    step t ts bs (to_create (Memᴰ.tail i) (u, us)) = to_create i us
    step t ts bs (to_update b g i p (Memᴰ.head e) (u, us)) =
        subst (λ x. Serving (apply_task r guid_of x bs) ts) e (brought bs ts b g i p us)
    step t ts bs (to_update b g i p (Memᴰ.tail j) (u, us)) =
        let (c, k, e, f) = persists t bs b i (subst (λ x. Spares r d x t) (sym p) u) in
        to_update c g k (e ∙ p) j us

    -- After the tasks there is a right proxy.
    pub serving-IsRight :
        (ts : List Task) (bs : List ServiceBroker)
        → Serving bs ts
        → (b : ServiceBroker) × Memᴰ b (apply_tasks r guid_of ts bs) × IsRight r d b
    serving-IsRight [] bs (served b i q us) = (b, i, q)
    serving-IsRight [] bs (to_create i us) = absurd (MemD.not-nil i)
    serving-IsRight [] bs (to_update b g i p j us) = absurd (MemD.not-nil j)
    serving-IsRight (t ∷ ts) bs s = serving-IsRight ts (apply_task r guid_of t bs) (step t ts bs s)
