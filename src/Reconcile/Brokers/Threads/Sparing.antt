-- ===== src/Reconcile/Brokers/Threads/Sparing.antt =====
-- The brokers of the platform that the tasks of reconcile_brokers.go change, as they take turns.
use mathlib.Core.List.{Memᴰ}
use service_broker_proxy.Prelude.{
  ℕ, String, ◌≡◌, refl, ◌⊎◌, subst, Bool, true, some, Option, none, List, [], ◌∷◌, map, inl, inr,
  All,
}
use service_broker_proxy.Types.{ServiceBroker, CreateRequest, Credential, conflicting_credentials}
use service_broker_proxy.Exec.{Log, Result, ok, err}
use service_broker_proxy.Exec.Threads.{ask}
use service_broker_proxy.Exec.Calls.{
  Call, get_brokers, create_broker, put_credentials, activate_credentials, generate_credential,
  generate_from_password,
}
use service_broker_proxy.Clients.{Env}
use service_broker_proxy.Clients.Sparing.{Reported, Reported-later, SparingCall, IsSparing}
use service_broker_proxy.Reconcile.Job.{ResyncJob}
use service_broker_proxy.Reconcile.Scheduler.Threads.{State}
use service_broker_proxy.Reconcile.Scheduler.Threads.Guarded.{Guarded, Reach-keeps}
use service_broker_proxy.Reconcile.Scheduler.Threads.Steady.{
  Steady, Steady-ask, Steady-ended, Steady-if, Steady-bind, steady_rules,
}
use service_broker_proxy.Reconcile.Brokers.{
  Task, create_registration, update_registration, fetch_catalog, delete_registration, proxied_id,
  broker_key,
}
use service_broker_proxy.Reconcile.Brokers.Tasks.{Login}
use service_broker_proxy.Reconcile.Brokers.Justified.{Justified, IsIndexed, broker_tasks-Justified}
use service_broker_proxy.Reconcile.Brokers.Threads.{
  conflict_tolerated, create_login, update_login, activate, activate_if_used, create_thread,
  update_thread, fetch_thread, delete_thread, thread_of, ReconcilesTo,
}

module _ (env : Env) (r : ResyncJob) (IsProxy MayUpdate : ServiceBroker → Type 0)
    (existing : List ServiceBroker) where
  -- The platform has reported the brokers, and only reported brokers have been changed.
  pub record Inv (s : Log) : Type 0 where
    pub own : (x : ServiceBroker) → Memᴰ x existing → IsProxy x → Reported env IsProxy x.guid s
    pub may : (x : ServiceBroker) → Memᴰ x existing → MayUpdate x → Reported env MayUpdate x.guid s
    pub sparing : IsSparing env IsProxy MayUpdate s

  extend :
      (c : Call)
      → ((s : Log) → Inv s → SparingCall env IsProxy MayUpdate c s)
      → (s : Log) → Inv s
      → Inv (c ∷ s)
  extend c h s i = record {
    own = λ x m q. Reported-later env IsProxy x.guid c s (i.own x m q);
    may = λ x m q. Reported-later env MayUpdate x.guid c s (i.may x m q);
    sparing = (h s i, i.sparing);
  }

  tolerated-Steady :
      (u p : String) (answer : Result Credential) → Steady Inv (conflict_tolerated u p answer)
  unfolding conflict_tolerated
  tolerated-Steady u p (ok c) = Steady-ended _
  tolerated-Steady u p (err conflicting_credentials) = Steady-ended _
  tolerated-Steady u p (err e) = Steady-ended _

  -- A call that changes no broker that is there.
  module _ {A : Type 0} where
    generate-Steady : (f : Log → Result A) → Steady Inv (ask generate_credential f)
    generate-Steady f = Steady-ask _ f (extend generate_credential (λ s i. tt))

    hash-Steady : (p : String) (f : Log → Result A) → Steady Inv (ask (generate_from_password p) f)
    hash-Steady p f = Steady-ask _ f (extend _ (λ s i. tt))

    put-Steady :
        (c : Credential) (b : Bool) (f : Log → Result A) → Steady Inv (ask (put_credentials c b) f)
    put-Steady c b f = Steady-ask _ f (extend _ (λ s i. tt))

    activate-Steady :
        (id : String) (f : Log → Result A) → Steady Inv (ask (activate_credentials id) f)
    activate-Steady id f = Steady-ask _ f (extend _ (λ s i. tt))

    create-Steady : (q : CreateRequest) (f : Log → Result A) → Steady Inv (ask (create_broker q) f)
    create-Steady q f = Steady-ask _ f (extend _ (λ s i. tt))

  ruleset rules = (
    steady_rules, tolerated-Steady, generate-Steady, hash-Steady, put-Steady, activate-Steady,
    create-Steady,
  )

  create_login-Steady : (b : ServiceBroker) → Steady Inv (create_login env r b)
  unfolding create_login
  create_login-Steady b = search rules depth 12

  update_login-Steady : (b : ServiceBroker) → Steady Inv (update_login env r b)
  unfolding update_login
  update_login-Steady b = search rules depth 12

  activate_response-Steady : (o : Option Credential) → Steady Inv (activate env r o)
  unfolding activate
  activate_response-Steady none = search rules
  activate_response-Steady (some c) = search rules

  activate_if_used-Steady : (l : Login) → Steady Inv (activate_if_used env r l)
  unfolding activate_if_used
  activate_if_used-Steady l = search (rules, activate_response-Steady)

  ruleset part_rules = (
    rules, create_login-Steady, update_login-Steady, activate_response-Steady,
    activate_if_used-Steady,
  )

  create_thread-Steady :
      (b : ServiceBroker) (name : String) → Steady Inv (create_thread env r b name)
  unfolding create_thread
  create_thread-Steady b name = search part_rules

  -- A task that updates, refetches or deletes a broker that was reported.
  module _ (guid : String) where
    update_thread-Steady :
        (b : ServiceBroker) (name : String)
        → ((s : Log) → Inv s → Reported env MayUpdate guid s)
        → Steady Inv (update_thread env r guid b name)
    unfolding update_thread
    update_thread-Steady b name known =
        Steady-bind _ _ (update_login-Steady b)
          λ l. Steady-bind _ _ (Steady-ask _ _ (extend _ known)) λ answer. activate_if_used-Steady l

    fetch_thread-Steady :
        (b : ServiceBroker) (name : String)
        → ((s : Log) → Inv s → Reported env IsProxy guid s)
        → Steady Inv (fetch_thread env r guid b name)
    unfolding fetch_thread
    fetch_thread-Steady b name known =
        Steady-if r.is_catalog_fetcher _ _
          (Steady-bind _ _ (update_login-Steady b) λ l.
            Steady-bind _ _ (Steady-ask _ _ (extend _ known)) λ answer. activate_if_used-Steady l)
          (Steady-ended _)

  delete_thread-Steady :
      (b : ServiceBroker)
      → ((s : Log) → Inv s → Reported env IsProxy b.guid s)
      → Steady Inv (delete_thread env r b)
  unfolding delete_thread
  delete_thread-Steady b known = Steady-ask _ _ (extend _ known)

  module _ (own : (x : ServiceBroker) (k : String) → proxied_id r x ≡ some k → IsProxy x)
      (may : (x : ServiceBroker) → IsProxy x → MayUpdate x)
      (taken : (x : ServiceBroker) → r.options.takeover_enabled ≡ true → MayUpdate x) where
    thread_of-Steady :
        (desired : List ServiceBroker) (t : Task)
        → Justified r (IsIndexed (proxied_id r) existing) (IsIndexed broker_key existing) desired t
        → Steady Inv (thread_of env r t)
    unfolding thread_of
    thread_of-Steady ds (create_registration b name) j = create_thread-Steady b name
    thread_of-Steady ds (update_registration guid b name) (i, e, (x, g, inl (m, q))) =
        update_thread-Steady guid b name
          (λ s k. subst (λ y. Reported env MayUpdate y s) g (k.may x m (may x (own x _ q))))
    thread_of-Steady ds (update_registration guid b name) (i, e, (x, g, inr (t, (m, q)))) =
        update_thread-Steady guid b name
          (λ s k. subst (λ y. Reported env MayUpdate y s) g (k.may x m (taken x t)))
    thread_of-Steady ds (fetch_catalog guid b name) (i, e, (x, g, (m, q), n, u)) =
        fetch_thread-Steady guid b name
          (λ s k. subst (λ y. Reported env IsProxy y s) g (k.own x m (own x _ q)))
    thread_of-Steady ds (delete_registration b) (x, (m, q), n) =
        delete_thread-Steady b (λ s k. k.own b m (own b x q))

    threads-Guarded :
        (ds : List ServiceBroker) (s : Log) (ts : List Task)
        → All
            (Justified r (IsIndexed (proxied_id r) existing) (IsIndexed broker_key existing) ds)
            ts
        → All (Guarded Inv s) (map (thread_of env r) ts)
    threads-Guarded ds s [] h = tt
    threads-Guarded ds s (t ∷ ts) h =
        ((thread_of-Steady ds t h.0).at s, threads-Guarded ds s ts h.1)

    pub reconciled-Inv :
        (capacity : ℕ) (lags : List ℕ) (desired : List ServiceBroker) (s : Log) {t : State}
        → Inv s
        → ReconcilesTo env r capacity lags existing desired s t
        → Inv t.log
    reconciled-Inv capacity lags desired s i reach =
        Reach-keeps Inv capacity _ s i
          (threads-Guarded desired s _ (broker_tasks-Justified r lags existing desired)) reach

module _ (r : ResyncJob) where
  -- The job takes the broker for a proxy.
  abbrev pub IsOwn : ServiceBroker → Type 0
  IsOwn b = (k : String) × (proxied_id r b ≡ some k)

  abbrev pub MayChange : ServiceBroker → Type 0
  MayChange b = IsOwn b ⊎ (r.options.takeover_enabled ≡ true)

module _ (env : Env) (r : ResyncJob) where
  -- With all tasks of reconcileBrokers taking turns between their calls, in any order and any number of
  -- slots, also if the context is cancelled on the way, and whenever the tasks that delete read the loop
  -- variable: if the platform has just reported the brokers that are reconciled, then in the log of any
  -- state that is reached, each broker that is deleted or refetched was reported before, with that GUID,
  -- as a proxy of the job; and so was each broker that is updated, or takeover is enabled and it was
  -- reported with any URL; as long as this holds of the log before.
  pub ReconcilesTo-IsSparing :
      (capacity : ℕ) (lags : List ℕ) (existing desired : List ServiceBroker) (s : Log) {t : State}
      → env.get_brokers s ≡ ok existing
      → IsSparing env (IsOwn r) (MayChange r) s
      → ReconcilesTo env r capacity lags existing desired (get_brokers ∷ s) t
      → IsSparing env (IsOwn r) (MayChange r) t.log
  ReconcilesTo-IsSparing capacity lags existing desired s answered p reach =
      (reconciled-Inv env r (IsOwn r) (MayChange r) existing (λ x k e. (k, e)) (λ x q. inl q)
        (λ x e. inr e) capacity lags desired (get_brokers ∷ s)
        (record {
          own = λ x m q. inl (rw answered (x, m, refl, q));
          may = λ x m q. inl (rw answered (x, m, refl, q));
          sparing = (tt, p);
        })
        reach).sparing
