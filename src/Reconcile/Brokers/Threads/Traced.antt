-- ===== src/Reconcile/Brokers/Threads/Traced.antt =====
-- The activations of credentials by the tasks of reconcile_brokers.go, as they take turns.
use service_broker_proxy.Prelude.{
  ℕ, String, Bool, true, false, if◌then◌else◌, ◌≡◌, refl, subst, Option, some, none, List, [], ◌∷◌,
  map, All,
}
use service_broker_proxy.Types.{ServiceBroker, Credential, CreateRequest, UpdateRequest}
use service_broker_proxy.Exec.{Log, Result, ok}
use service_broker_proxy.Exec.Threads.{Thread, pure, ask, ◌>>=◌}
use service_broker_proxy.Exec.Extensions.{Later, same}
use service_broker_proxy.Exec.Calls.{Call, create_broker, update_broker, fetch}
use service_broker_proxy.Clients.{Env}
use service_broker_proxy.Clients.Traced.{
  Stored, by_create, by_update, by_fetch, IsTraced, TracedCall, Stored-Later, Used-Later,
}
use service_broker_proxy.Reconcile.Brokers.Threads.Logins.{
  Inv, ResponseStored, LoginStored, ResponseUsed, ask-Ensures, create_login-Ensures,
  update_login-Ensures,
}
use service_broker_proxy.Reconcile.Job.{ResyncJob}
use service_broker_proxy.Reconcile.Scheduler.Threads.{State}
use service_broker_proxy.Reconcile.Scheduler.Threads.Guarded.{
  Returns-intro, Ensures, Ensures-bind, Ensures-if, Guarded, Reach-keeps,
}
use service_broker_proxy.Reconcile.Brokers.{
  Task, create_registration, update_registration, fetch_catalog, delete_registration,
}
use service_broker_proxy.Reconcile.Brokers.Tasks.{Login}
use service_broker_proxy.Reconcile.Brokers.Threads.{
  activate, activate_if_used, create_thread, update_thread, fetch_thread, delete_thread, thread_of,
  ReconcilesTo,
}

module _ (env : Env) where
  module _ (r : ResyncJob) (b : ServiceBroker) where
    activate-Ensures :
        (s : Log) (o : Option Credential)
        → ResponseUsed env s o
        → Ensures (Inv env) (λ t u. Unit) s (activate env r o)
    unfolding activate ◌>>=◌
    activate-Ensures s none h = tt
    activate-Ensures s (some c) h = λ t l p. ((Used-Later env c.id l h, p), tt)

    activated-Ensures :
        (used : Bool) (s : Log) (o : Option Credential)
        → ResponseUsed env s o
        → Guarded (Inv env) s (if used then activate env r o else pure tt)
    activated-Ensures true s o h = activate-Ensures s o h
    activated-Ensures false s o h = tt

    activate_if_used-Ensures :
        (s : Log) (l : Login)
        → ResponseUsed env s l.response
        → Guarded (Inv env) s (activate_if_used env r l)
    unfolding activate_if_used
    activate_if_used-Ensures s l h = activated-Ensures _ s l.response h

  -- What is stored stays stored.
  carried :
      (id guid broker_id u p : String) {s t : Log}
      → guid ≡ broker_id
      → Stored env id guid u p s
      → Later s t
      → Stored env id broker_id u p t
  carried id guid broker_id u p {s} {t} e h l =
      subst (λ x. Stored env id x u p t) e (Stored-Later env id guid u p l h)

  -- The platform accepted the request of the task.
  used_by_create :
      (q : CreateRequest) (b : ServiceBroker) (o : Option Credential) (s t : Log)
      (a : ServiceBroker)
      → b.guid ≡ q.id
      → ResponseStored env b q.username q.password s o
      → Later s t
      → env.create_broker t q ≡ ok a
      → ResponseUsed env (create_broker q ∷ t) o
  used_by_create q b none s t a e h l answered = tt
  used_by_create q b (some c) s t a e h l answered =
      by_create q t same (rw answered tt) (carried c.id b.guid q.id _ _ e h l)

  used_by_update :
      (q : UpdateRequest) (b : ServiceBroker) (o : Option Credential) (s t : Log)
      (a : ServiceBroker)
      → b.guid ≡ q.id
      → ResponseStored env b q.username q.password s o
      → Later s t
      → env.update_broker t q ≡ ok a
      → ResponseUsed env (update_broker q ∷ t) o
  used_by_update q b none s t a e h l answered = tt
  used_by_update q b (some c) s t a e h l answered =
      by_update q t same (rw answered tt) (carried c.id b.guid q.id _ _ e h l)

  used_by_fetch :
      (q : UpdateRequest) (b : ServiceBroker) (o : Option Credential) (s t : Log) (u : Unit {0})
      → b.guid ≡ q.id
      → ResponseStored env b q.username q.password s o
      → Later s t
      → env.fetch t q ≡ ok u
      → ResponseUsed env (fetch q ∷ t) o
  used_by_fetch q b none s t a e h l answered = tt
  used_by_fetch q b (some c) s t a e h l answered =
      by_fetch q t same (rw answered tt) (carried c.id b.guid q.id _ _ e h l)

  module _ (r : ResyncJob) where
    -- The request, and the activation behind it.
    requested-Guarded :
        {A : Type 0} (c : Call) (answer : Log → Result A) (l : Login) (m : Thread (Unit {0}))
        (s : Log)
        → ((t : Log) → Later s t → TracedCall env c t)
        → ((t : Log) (a : A) → Later s t → answer t ≡ ok a → ResponseUsed env (c ∷ t) l.response)
        → ((t : Log) → ResponseUsed env t l.response → Guarded (Inv env) t m)
        → Guarded (Inv env) s (ask c answer >>= λ a. m)
    requested-Guarded c answer l m s h g rest =
        Ensures-bind (Inv env) (λ t a. ResponseUsed env t l.response) (λ t u. Unit) _ _ s
          (ask-Ensures env (λ t a. ResponseUsed env t l.response) c answer s h g)
          (λ t a k u. rest t u)

    create_thread-Guarded :
        (b : ServiceBroker) (name : String) (s : Log)
        → Guarded (Inv env) s (create_thread env r b name)
    unfolding create_thread
    create_thread-Guarded b name s =
        Ensures-bind (Inv env) (LoginStored env b) (λ t u. Unit) _ _ s
          (create_login-Ensures env r b s)
          λ t l m h.
            requested-Guarded _ _ l _ t (λ t' m'. tt)
              (λ t' a m' e. used_by_create _ b l.response t t' a refl h m' e)
              (λ t' u. activate-Ensures r b t' l.response u)

    update_thread-Guarded :
        (guid : String) (b : ServiceBroker) (name : String) (s : Log)
        → Guarded (Inv env) s (update_thread env r guid b name)
    unfolding update_thread
    update_thread-Guarded guid b name s =
        Ensures-bind (Inv env) (LoginStored env b) (λ t u. Unit) _ _ s
          (update_login-Ensures env r b s)
          λ t l m h.
            requested-Guarded _ _ l _ t (λ t' m'. tt)
              (λ t' a m' e. used_by_update _ b l.response t t' a refl h m' e)
              (λ t' u. activate_if_used-Ensures r b t' l u)

    fetch_thread-Guarded :
        (guid : String) (b : ServiceBroker) (name : String) (s : Log)
        → Guarded (Inv env) s (fetch_thread env r guid b name)
    unfolding fetch_thread
    fetch_thread-Guarded guid b name s =
        Ensures-if (Inv env) (λ t u. Unit) r.is_catalog_fetcher _ _ s
          (Ensures-bind (Inv env) (LoginStored env b) (λ t u. Unit) _ _ s
            (update_login-Ensures env r b s)
            λ t l m h.
              requested-Guarded _ _ l _ t (λ t' m'. tt)
                (λ t' a m' e. used_by_fetch _ b l.response t t' a refl h m' e)
                (λ t' u. activate_if_used-Ensures r b t' l u))
          tt

    delete_thread-Guarded :
        (b : ServiceBroker) (s : Log) → Guarded (Inv env) s (delete_thread env r b)
    unfolding delete_thread
    delete_thread-Guarded b s =
        λ t l p. ((tt, p), Returns-intro (λ t u. Unit) t (env.delete_broker t _) (λ a e. tt))

    thread_of-Guarded : (s : Log) (t : Task) → Guarded (Inv env) s (thread_of env r t)
    unfolding thread_of
    thread_of-Guarded s (create_registration b name) = create_thread-Guarded b name s
    thread_of-Guarded s (update_registration guid b name) = update_thread-Guarded guid b name s
    thread_of-Guarded s (fetch_catalog guid b name) = fetch_thread-Guarded guid b name s
    thread_of-Guarded s (delete_registration b) = delete_thread-Guarded b s

    threads-Guarded :
        (s : Log) (ts : List Task) → All (Guarded (Inv env) s) (map (thread_of env r) ts)
    threads-Guarded s [] = tt
    threads-Guarded s (t ∷ ts) = (thread_of-Guarded s t, threads-Guarded s ts)

-- With all tasks of reconcileBrokers taking turns between their calls, in any order and any number of
-- slots, also if the context is cancelled on the way: in the log of any state that is reached, before
-- every activation of credentials the platform had accepted a create, update or fetch request whose user
-- name and password had been stored in the Service Manager before, the password hashed, for the broker of
-- that request, and the activation is for the credential that the Service Manager then answered; as long
-- as this holds of the log before.
pub ReconcilesTo-IsTraced :
    (env : Env) (r : ResyncJob) (capacity : ℕ) (lags : List ℕ)
    (existing desired : List ServiceBroker) (s : Log) {t : State}
    → IsTraced env s
    → ReconcilesTo env r capacity lags existing desired s t
    → IsTraced env t.log
ReconcilesTo-IsTraced env r capacity lags existing desired s p reach =
    Reach-keeps (IsTraced env) capacity _ s p (threads-Guarded env r s _) reach
