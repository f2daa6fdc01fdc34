-- ===== src/Reconcile/Brokers/Threads.antt =====
-- The tasks of reconcile_brokers.go as threads, which take turns between their calls:
-- createBrokerRegistration, updateBrokerRegistration, fetchBrokerCatalog, deleteBrokerRegistration.
pub mod Alone
pub mod Sparing
pub mod Traced
pub mod Logins
use service_broker_proxy.Prelude.{
  ℕ, String, Bool, true, false, ◌&&◌, not, Option, none, some, List, map, ◌==◌, if◌then◌else◌,
}
use service_broker_proxy.Types.{
  conflicting_credentials, ServiceBroker, CreateRequest, DeleteRequest, Credential,
}
use service_broker_proxy.Exec.{Log, Result, ok, err}
use service_broker_proxy.Exec.Calls.{
  create_broker, update_broker, delete_broker, fetch, put_credentials, activate_credentials,
  generate_credential, generate_from_password,
}
use service_broker_proxy.Exec.Threads.{Thread, ended, pure, ask, attempt, ◌>>=◌, ◌>>◌}
use service_broker_proxy.Clients.{Env}
use service_broker_proxy.Reconcile.Urls.{broker_id_from_url}
use service_broker_proxy.Reconcile.Job.{ResyncJob, proxy_url}
use service_broker_proxy.Reconcile.Scheduler.Threads.{State, start, Reach}
use service_broker_proxy.Reconcile.Brokers.{
  Task, create_registration, update_registration, fetch_catalog, delete_registration, broker_tasks,
}
use service_broker_proxy.Reconcile.Brokers.Tasks.{Login, update_request}

-- What becomes of the answer to PutCredentials without force.
unfoldable pub conflict_tolerated : String → String → Result Credential → Thread Login
conflict_tolerated username password (ok c) =
    pure (record { username = username; password = password; response = some c })
conflict_tolerated username password (err conflicting_credentials) =
    pure (record { username = ""; password = ""; response = none })
conflict_tolerated username password (err e) = ended (err e)

-- The argument of PutCredentials for the broker.
abbrev pub request : ServiceBroker → String → String → Credential
request b username hash = record {
  id = "";
  username = username;
  password_hash = hash;
  broker_id = b.guid;
  notification_id = "";
}

module _ (env : Env) (r : ResyncJob) where
  abbrev pub put : Credential → Bool → Thread Credential
  put c force = ask (put_credentials c force) (λ s. env.put_credentials s c force)

  abbrev pub default_login : Thread Login
  default_login = pure (record {
    username = r.default_broker_username;
    password = r.default_broker_password;
    response = none;
  })

  -- createBrokerRegistration up to its request
  unfoldable pub create_login : ServiceBroker → Thread Login
  create_login b =
      if r.options.broker_credentials_enabled
      then (do
        username ← ask generate_credential env.generate_credential
        password ← ask generate_credential env.generate_credential
        hash ← ask (generate_from_password password) (λ s. env.generate_from_password s password)
        c ← put (request b username hash) true
        pure (record { username = username; password = password; response = some c }))
      else default_login

  -- updateBrokerRegistration and fetchBrokerCatalog up to their request
  unfoldable pub update_login : ServiceBroker → Thread Login
  unfolding attempt conflict_tolerated
  update_login b =
      if r.options.broker_credentials_enabled
      then (do
        username ← ask generate_credential env.generate_credential
        password ← ask generate_credential env.generate_credential
        hash ← ask (generate_from_password password) (λ s. env.generate_from_password s password)
        answer ← attempt (put (request b username hash) false)
        conflict_tolerated username password answer)
      else default_login

  -- activateBrokerCredentials
  unfoldable pub activate : Option Credential → Thread (Unit {0})
  unfolding attempt
  activate none = pure tt
  activate (some c) = do
    attempt (ask (activate_credentials c.id) (λ s. env.activate_credentials s c.id))
    pure tt

  unfoldable pub activate_if_used : Login → Thread (Unit {0})
  unfolding activate
  activate_if_used l =
      if r.options.broker_credentials_enabled && not (l.username == "") && not (l.password == "")
      then activate l.response
      else pure tt

  unfoldable pub create_thread : ServiceBroker → String → Thread (Unit {0})
  unfolding create_login activate
  create_thread b name = do
    l ← create_login b
    let q : CreateRequest = record {
      id = b.guid;
      name = name;
      broker_url = proxy_url r b;
      username = l.username;
      password = l.password;
    }
    ask (create_broker q) (λ s. env.create_broker s q)
    activate l.response

  unfoldable pub update_thread : String → ServiceBroker → String → Thread (Unit {0})
  unfolding update_login activate_if_used
  update_thread guid b name = do
    l ← update_login b
    let q = update_request env r guid b name l
    ask (update_broker q) (λ s. env.update_broker s q)
    activate_if_used l

  unfoldable pub fetch_thread : String → ServiceBroker → String → Thread (Unit {0})
  unfolding update_login activate_if_used
  fetch_thread guid b name =
      if r.is_catalog_fetcher
      then (do
        l ← update_login b
        let q = update_request env r guid b name l
        ask (fetch q) (λ s. env.fetch s q)
        activate_if_used l)
      else pure tt

  unfoldable pub delete_thread : ServiceBroker → Thread (Unit {0})
  delete_thread b =
      let q : DeleteRequest = record {
        id = broker_id_from_url b.broker_url;
        guid = b.guid;
        name = b.name;
      } in
      ask (delete_broker q) (λ s. env.delete_broker s q)

  unfoldable pub thread_of : Task → Thread (Unit {0})
  thread_of (create_registration b name) = create_thread b name
  thread_of (update_registration guid b name) = update_thread guid b name
  thread_of (fetch_catalog guid b name) = fetch_thread guid b name
  thread_of (delete_registration b) = delete_thread b

  -- reconcileBrokers from its loops to Await: where its tasks can lead in `capacity` slots. `lags` says
  -- when each task that deletes reads the loop variable.
  abbrev pub ReconcilesTo :
      ℕ → List ℕ → List ServiceBroker → List ServiceBroker → Log → State → Type 0
  ReconcilesTo capacity lags existing desired s =
      Reach capacity (start (map thread_of (broker_tasks r lags existing desired)) s)
