-- ===== src/Reconcile/Brokers/Tasks.antt =====
-- The tasks of reconcile_brokers.go: createBrokerRegistration, updateBrokerRegistration,
-- fetchBrokerCatalog and deleteBrokerRegistration.
use service_broker_proxy.Prelude.{
  String, true, false, ◌&&◌, not, Option, none, some, List, map, ◌==◌, if◌then◌else◌,
}
use service_broker_proxy.Types.{conflicting_credentials, ServiceBroker, UpdateRequest, Credential}
use service_broker_proxy.Exec.{Result, ok, err, Exec, pure, raise, attempt, ◌>>=◌, ◌>>◌}
use service_broker_proxy.Clients.{
  Env, create_broker, update_broker, delete_broker, fetch, put_credentials, activate_credentials,
}
use service_broker_proxy.Clients.Credentials.{generate_broker_platform_credentials}
use service_broker_proxy.Reconcile.Urls.{broker_id_from_url}
use service_broker_proxy.Reconcile.Job.{ResyncJob, proxy_url}
use service_broker_proxy.Reconcile.Scheduler.{schedule_all}
use service_broker_proxy.Reconcile.Brokers.{
  Task, create_registration, update_registration, fetch_catalog, delete_registration, broker_tasks,
}

-- The user name, the password and the answer to PutCredentials, if credentials are enabled.
pub record Login : Type 0 where
  pub username : String
  pub password : String
  pub response : Option Credential

-- After PutCredentials without force: a conflict is no error, and empties user name and password.
unfoldable pub tolerate_conflict : String → String → Result Credential → Exec Login
tolerate_conflict username password (ok c) =
    pure (record { username = username; password = password; response = some c })
tolerate_conflict username password (err conflicting_credentials) =
    pure (record { username = ""; password = ""; response = none })
tolerate_conflict username password (err e) = raise e

module _ (env : Env) (r : ResyncJob) where
  abbrev default_login : Exec Login
  default_login = pure (record {
    username = r.default_broker_username;
    password = r.default_broker_password;
    response = none;
  })

  -- createBrokerRegistration up to its request
  unfoldable pub create_login : ServiceBroker → Exec Login
  unfolding generate_broker_platform_credentials put_credentials
  create_login b =
      if r.options.broker_credentials_enabled
      then (do
        g ← generate_broker_platform_credentials env
        c ←
            put_credentials env
              (record {
                id = "";
                username = g.username;
                password_hash = g.password_hash;
                broker_id = b.guid;
                notification_id = "";
              })
              true
        pure (record { username = g.username; password = g.password; response = some c }))
      else default_login

  -- updateBrokerRegistration and fetchBrokerCatalog up to their request
  unfoldable pub update_login : ServiceBroker → Exec Login
  unfolding generate_broker_platform_credentials put_credentials tolerate_conflict
  update_login b =
      if r.options.broker_credentials_enabled
      then (do
        g ← generate_broker_platform_credentials env
        answer ← attempt (
            put_credentials env
              (record {
                id = "";
                username = g.username;
                password_hash = g.password_hash;
                broker_id = b.guid;
                notification_id = "";
              })
              false)
        tolerate_conflict g.username g.password answer)
      else default_login

  -- activateBrokerCredentials; a failure is only logged. After a conflict the answer is nil, and user
  -- name and password are empty, so the callers do not get here with a nil answer.
  unfoldable pub activate : Option Credential → Exec (Unit {0})
  unfolding activate_credentials
  activate none = pure tt
  activate (some c) = do attempt (activate_credentials env c.id); pure tt

  -- `if BrokerCredentialsEnabled && len(username) > 0 && len(password) > 0`
  unfoldable pub activate_if_used : Login → Exec (Unit {0})
  unfolding activate
  activate_if_used l =
      if r.options.broker_credentials_enabled && not (l.username == "") && not (l.password == "")
      then activate l.response
      else pure tt

  abbrev pub update_request : String → ServiceBroker → String → Login → UpdateRequest
  update_request guid b name l = record {
    id = b.guid;
    guid = guid;
    name = name;
    broker_url = proxy_url r b;
    username = l.username;
    password = l.password;
  }

  unfoldable pub create_broker_registration : ServiceBroker → String → Exec (Unit {0})
  unfolding create_login create_broker activate
  create_broker_registration b name = do
    l ← create_login b
    create_broker env (record {
      id = b.guid;
      name = name;
      broker_url = proxy_url r b;
      username = l.username;
      password = l.password;
    })
    activate l.response

  unfoldable pub update_broker_registration : String → ServiceBroker → String → Exec (Unit {0})
  unfolding update_login update_broker activate_if_used
  update_broker_registration guid b name = do
    l ← update_login b
    update_broker env (update_request guid b name l)
    activate_if_used l

  unfoldable pub fetch_broker_catalog : String → ServiceBroker → String → Exec (Unit {0})
  unfolding update_login fetch activate_if_used
  fetch_broker_catalog guid b name =
      if r.is_catalog_fetcher
      then (do l ← update_login b; fetch env (update_request guid b name l); activate_if_used l)
      else pure tt

  unfoldable pub delete_broker_registration : ServiceBroker → Exec (Unit {0})
  unfolding delete_broker
  delete_broker_registration b =
      delete_broker env
        (record { id = broker_id_from_url b.broker_url; guid = b.guid; name = b.name })

  unfoldable pub run_task : Task → Exec (Unit {0})
  run_task (create_registration b name) = create_broker_registration b name
  run_task (update_registration guid b name) = update_broker_registration guid b name
  run_task (fetch_catalog guid b name) = fetch_broker_catalog guid b name
  run_task (delete_registration b) = delete_broker_registration b

  -- reconcileBrokers; the error of Await is only logged.
  unfoldable pub reconcile_brokers : List ServiceBroker → List ServiceBroker → Exec (Unit {0})
  reconcile_brokers existing desired = do
    attempt (λ s. schedule_all (map run_task (broker_tasks r (env.loop_lags s) existing desired)) s)
    pure tt
