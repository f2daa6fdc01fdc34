-- ===== src/Reconcile/Brokers/Threads/Logins.antt =====
-- The activations of credentials by the tasks of reconcile_brokers.go, up to their requests.
use service_broker_proxy.Prelude.{String, Bool, true, false, ◌≡◌, refl, Option, some, none, ◌∷◌}
use service_broker_proxy.Types.{ServiceBroker, Credential, conflicting_credentials}
use service_broker_proxy.Exec.{Log, Result, ok, err}
use service_broker_proxy.Exec.Threads.{Thread, ask, ◌>>=◌}
use service_broker_proxy.Exec.Extensions.{Later, same}
use service_broker_proxy.Exec.Calls.{
  Call, put_credentials, generate_credential, generate_from_password,
}
use service_broker_proxy.Clients.{Env}
use service_broker_proxy.Clients.Traced.{Hashed, Stored, Used, IsTraced, TracedCall, Hashed-Later}
use service_broker_proxy.Reconcile.Job.{ResyncJob}
use service_broker_proxy.Reconcile.Scheduler.Threads.Guarded.{
  Returns, Returns-intro, Ensures, Ensures-bind, Ensures-if,
}
use service_broker_proxy.Reconcile.Brokers.Tasks.{Login}
use service_broker_proxy.Reconcile.Brokers.Threads.{
  conflict_tolerated, request, put, create_login, update_login,
}

module _ (env : Env) where
  abbrev pub Inv : Log → Type 0
  Inv = IsTraced env

  -- What is known of the credential of a task for the broker.
  abbrev pub ResponseStored : ServiceBroker → String → String → Log → Option Credential → Type 0
  ResponseStored b username password s none = Unit
  ResponseStored b username password s (some c) = Stored env c.id b.guid username password s

  abbrev pub LoginStored : ServiceBroker → Log → Login → Type 0
  LoginStored b s l = ResponseStored b l.username l.password s l.response

  abbrev pub ResponseUsed : Log → Option Credential → Type 0
  ResponseUsed s none = Unit
  ResponseUsed s (some c) = Used env c.id s

  -- One call, with what its answer says.
  pub ask-Ensures :
      {A : Type 0} (Q : Log → A → Type 0) (c : Call) (answer : Log → Result A) (s : Log)
      → ((t : Log) → Later s t → TracedCall env c t)
      → ((t : Log) (a : A) → Later s t → answer t ≡ ok a → Q (c ∷ t) a)
      → Ensures Inv Q s (ask c answer)
  ask-Ensures Q c answer s h g =
      λ t l p. ((h t l, p), Returns-intro Q (c ∷ t) (answer t) (λ a e. g t a l e))

  generate-Ensures :
      (s : Log) → Ensures Inv (λ t u. Unit) s (ask generate_credential env.generate_credential)
  generate-Ensures s =
      ask-Ensures (λ t u. Unit) generate_credential env.generate_credential s (λ t l. tt)
        (λ t a l e. tt)

  hash-Ensures :
      (p : String) (s : Log)
      → Ensures Inv
          (λ t h. Hashed env p h t)
          s
          (ask (generate_from_password p) (λ t. env.generate_from_password t p))
  hash-Ensures p s =
      ask-Ensures (λ t h. Hashed env p h t) _ (λ t. env.generate_from_password t p) s (λ t l. tt)
        (λ t h l e. record { before = t; later = same; answered = e })

  module _ {B : Type 0} (R : Log → B → Type 0) where
    -- The three calls that make credentials.
    generated-Ensures :
        (f : String → String → String → Thread B) (s : Log)
        → ((t : Log) (u p h : String) → Hashed env p h t → Ensures Inv R t (f u p h))
        → Ensures Inv R s (
            ask generate_credential env.generate_credential >>= λ u.
            ask generate_credential env.generate_credential >>= λ p.
            ask (generate_from_password p) (λ t. env.generate_from_password t p) >>= λ h. f u p h)
    generated-Ensures f s g =
        Ensures-bind Inv (λ t a. Unit) R _ _ s (generate-Ensures s)
          λ s1 u l1 q1.
            Ensures-bind Inv (λ t a. Unit) R _ _ s1 (generate-Ensures s1)
              λ s2 p l2 q2.
                Ensures-bind Inv _ R _ _ s2 (hash-Ensures p s2) λ s3 h l3 q3. g s3 u p h q3

  stored :
      (b : ServiceBroker) (u p h : String) (force : Bool) (t : Log) (c : Credential)
      → Hashed env p h t
      → env.put_credentials t (request b u h) force ≡ ok c
      → Stored env c.id b.guid u p (put_credentials (request b u h) force ∷ t)
  stored b u p h force t c hashed e = record {
    before = t;
    credential = request b u h;
    force = force;
    later = same;
    answered = rw e refl;
    for_broker = refl;
    for_user = refl;
    hashed = hashed;
  }

  module _ (r : ResyncJob) (b : ServiceBroker) where
    put-Ensures :
        (u p h : String) (force : Bool) (s : Log)
        → Hashed env p h s
        → Ensures Inv (λ t c. Stored env c.id b.guid u p t) s (put env r (request b u h) force)
    put-Ensures u p h force s hashed =
        ask-Ensures (λ t c. Stored env c.id b.guid u p t) _
          (λ t. env.put_credentials t (request b u h) force) s (λ t l. tt)
          (λ t c l e. stored b u p h force t c (Hashed-Later env p h l hashed) e)

    pub create_login-Ensures : (s : Log) → Ensures Inv (LoginStored b) s (create_login env r b)
    unfolding create_login
    create_login-Ensures s =
        Ensures-if Inv _ r.options.broker_credentials_enabled _ _ s
          (generated-Ensures _ _ s λ t u p h hashed.
            Ensures-bind Inv (λ t c. Stored env c.id b.guid u p t) _ _ _ t
              (put-Ensures u p h true t hashed) λ t' c l q. q)
          tt

    tolerated-Ensures :
        (u p : String) (s : Log) (answer : Result Credential)
        → Returns (λ t c. Stored env c.id b.guid u p t) s answer
        → Ensures Inv (LoginStored b) s (conflict_tolerated u p answer)
    unfolding conflict_tolerated
    tolerated-Ensures u p s (ok c) h = h
    tolerated-Ensures u p s (err conflicting_credentials) h = tt
    tolerated-Ensures u p s (err e) h = tt

    pub update_login-Ensures : (s : Log) → Ensures Inv (LoginStored b) s (update_login env r b)
    unfolding update_login
    update_login-Ensures s =
        Ensures-if Inv _ r.options.broker_credentials_enabled _ _ s
          (generated-Ensures _ _ s λ t u p h hashed.
            Ensures-bind Inv (λ t a. Returns (λ t c. Stored env c.id b.guid u p t) t a) _ _ _ t
              (λ t' l q. put-Ensures u p h false t hashed t' l q)
              λ t' a l q. tolerated-Ensures u p t' a q)
          tt
