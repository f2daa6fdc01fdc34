-- ===== src/Clients/Traced.antt =====
-- The invariant of a log that ties an activation of credentials to what was done before it, with other
-- calls in between.
use service_broker_proxy.Prelude.{String, Bool, ◌≡◌, [], ◌∷◌}
use service_broker_proxy.Types.{Credential, CreateRequest, UpdateRequest}
use service_broker_proxy.Exec.{Log, ok}
use service_broker_proxy.Exec.Calls.{
  Call, create_broker, update_broker, fetch, put_credentials, activate_credentials,
  generate_from_password,
}
use service_broker_proxy.Exec.Extensions.{Later, Later-trans}
use service_broker_proxy.Clients.{Env}
use service_broker_proxy.Clients.Confirmed.{Succeeded, HasId}

module _ (env : Env) where
  -- The password was hashed.
  pub record Hashed (password hash : String) (s : Log) : Type 0 where
    pub before : Log
    pub later : Later (generate_from_password password ∷ before) s
    pub answered : env.generate_from_password before password ≡ ok hash

  -- The user name and the hash of the password were stored for the broker in the Service Manager,
  -- which answered with the credential `id`.
  pub record Stored (id broker_id username password : String) (s : Log) : Type 0 where
    pub before : Log
    pub credential : Credential
    pub force : Bool
    pub later : Later (put_credentials credential force ∷ before) s
    pub answered : HasId (env.put_credentials before credential force) id
    pub for_broker : credential.broker_id ≡ broker_id
    pub for_user : credential.username ≡ username
    pub hashed : Hashed password credential.password_hash before

  -- The platform accepted a request with stored credentials.
  pub data Used (id : String) (s : Log) : Type 0 where
    by_create :
        (q : CreateRequest) (t : Log)
        → Later (create_broker q ∷ t) s
        → Succeeded (env.create_broker t q)
        → Stored id q.id q.username q.password t
        → Used id s
    by_update :
        (q : UpdateRequest) (t : Log)
        → Later (update_broker q ∷ t) s
        → Succeeded (env.update_broker t q)
        → Stored id q.id q.username q.password t
        → Used id s
    by_fetch :
        (q : UpdateRequest) (t : Log)
        → Later (fetch q ∷ t) s
        → Succeeded (env.fetch t q)
        → Stored id q.id q.username q.password t
        → Used id s

  abbrev pub TracedCall : Call → Log → Type 0
  TracedCall (activate_credentials id) s = Used id s
  TracedCall _ s = Unit

  -- Every activation in the log came after the platform accepted the credentials.
  abbrev pub IsTraced : Log → Type 0
  IsTraced [] = Unit
  IsTraced (c ∷ s) = TracedCall c s × IsTraced s

  pub Hashed-Later : (p h : String) {s t : Log} → Later s t → Hashed p h s → Hashed p h t
  Hashed-Later p h l x = record {
    before = x.before;
    later = Later-trans x.later l;
    answered = x.answered;
  }

  pub Stored-Later :
      (id b u p : String) {s t : Log} → Later s t → Stored id b u p s → Stored id b u p t
  Stored-Later id b u p l x = record {
    before = x.before;
    credential = x.credential;
    force = x.force;
    later = Later-trans x.later l;
    answered = x.answered;
    for_broker = x.for_broker;
    for_user = x.for_user;
    hashed = x.hashed;
  }

  pub Used-Later : (id : String) {s t : Log} → Later s t → Used id s → Used id t
  Used-Later id l (by_create q u m a st) = by_create q u (Later-trans m l) a st
  Used-Later id l (by_update q u m a st) = by_update q u (Later-trans m l) a st
  Used-Later id l (by_fetch q u m a st) = by_fetch q u (Later-trans m l) a st
