-- ===== src/Reconcile/Brokers/Platform/Effects.antt =====
-- What the tasks of reconcile_brokers.go do to the brokers of the platform.
use service_broker_proxy.Prelude.{
  ℕ, String, Bool, true, false, ◌≡◌, refl, ap, ◌∙◌, Option, none, some, List, [], ◌∷◌, ◌++◌, map,
  if◌then◌else◌, Bool-cases, inl, inr,
}
use service_broker_proxy.Types.{ServiceBroker, Credential}
use service_broker_proxy.Exec.{Log, pure, ◌>>=◌}
use service_broker_proxy.Clients.{Env}
use service_broker_proxy.Reconcile.Job.{ResyncJob, proxy_url}
use service_broker_proxy.Reconcile.Scheduler.{run_tasks}
use service_broker_proxy.Reconcile.Brokers.{
  Task, create_registration, update_registration, fetch_catalog, delete_registration,
}
use service_broker_proxy.Reconcile.Brokers.Tasks.{
  create_broker_registration, update_broker_registration, fetch_broker_catalog,
  delete_broker_registration, activate, run_task,
}
use service_broker_proxy.Reconcile.Brokers.Platform.{renamed, without, listing, IsWilling}

module _ (r : ResyncJob) (guid_of : String → String) where
  abbrev pub apply_task : Task → List ServiceBroker → List ServiceBroker
  apply_task (create_registration d name) bs =
      bs ++ record { guid = guid_of d.guid; name = name; broker_url = proxy_url r d } ∷ []
  apply_task (update_registration guid d name) bs = map (renamed guid name (proxy_url r d)) bs
  apply_task (fetch_catalog guid d name) bs = bs
  apply_task (delete_registration b) bs = without b.guid bs

  abbrev pub apply_tasks : List Task → List ServiceBroker → List ServiceBroker
  apply_tasks [] bs = bs
  apply_tasks (t ∷ ts) bs = apply_tasks ts (apply_task t bs)

  module _ (initial : List ServiceBroker) (env : Env) (w : IsWilling guid_of initial env) where
    abbrev brokers : Log → List ServiceBroker
    brokers = listing guid_of initial

    create-apply :
        (d : ServiceBroker) (name : String) (s : Log)
        → brokers (create_broker_registration env r d name s).1
          ≡ apply_task (create_registration d name) (brokers s)
    unfolding create_broker_registration ◌>>=◌
    create-apply d name s = elim (Bool-cases r.options.broker_credentials_enabled) [
      | inl e ↦ simp (e, w.generates, w.hashes, w.stores, w.creates)
      | inr e ↦ simp (e, w.creates)
    ]

    activate-apply : (o : Option Credential) (s : Log) → brokers (activate env r o s).1 ≡ brokers s
    unfolding activate ◌>>=◌
    activate-apply none s = refl
    activate-apply (some c) s = refl

    activated-apply :
        (used : Bool) (o : Option Credential) (s : Log)
        → brokers ((if used then activate env r o else pure tt) s).1 ≡ brokers s
    unfolding ◌>>=◌
    activated-apply true o s = activate-apply o s
    activated-apply false o s = refl

    update-apply :
        (guid : String) (d : ServiceBroker) (name : String) (s : Log)
        → brokers (update_broker_registration env r guid d name s).1
          ≡ apply_task (update_registration guid d name) (brokers s)
    unfolding update_broker_registration ◌>>=◌
    update-apply guid d name s = elim (Bool-cases r.options.broker_credentials_enabled) [
      | inl e ↦ simp (e, w.generates, w.hashes, w.stores, w.updates, activated-apply)
      | inr e ↦ simp (e, w.updates)
    ]

    fetch-apply :
        (guid : String) (d : ServiceBroker) (name : String) (s : Log)
        → brokers (fetch_broker_catalog env r guid d name s).1 ≡ brokers s
    unfolding fetch_broker_catalog ◌>>=◌
    fetch-apply guid d name s = elim (Bool-cases r.is_catalog_fetcher) [
      | inr n ↦ simp n
      | inl n ↦ elim (Bool-cases r.options.broker_credentials_enabled) [
        | inl e ↦ simp (n, e, w.generates, w.hashes, w.stores, w.fetches, activated-apply)
        | inr e ↦ simp (n, e, w.fetches)
      ]
    ]

    run_task-apply :
        (t : Task) (s : Log) → brokers (run_task env r t s).1 ≡ apply_task t (brokers s)
    unfolding run_task delete_broker_registration ◌>>=◌
    run_task-apply (create_registration d name) s = create-apply d name s
    run_task-apply (update_registration guid d name) s = update-apply guid d name s
    run_task-apply (fetch_catalog guid d name) s = fetch-apply guid d name s
    run_task-apply (delete_registration b) s = refl

    -- The brokers that the platform lists after the tasks.
    pub run_tasks-apply :
        (ts : List Task) (n : ℕ) (s : Log)
        → brokers (run_tasks (map (run_task env r) ts) n s).1 ≡ apply_tasks ts (brokers s)
    unfolding run_tasks
    run_tasks-apply [] n s = refl
    run_tasks-apply (t ∷ ts) n s =
        run_tasks-apply ts _ (run_task env r t s).1 ∙ ap (apply_tasks ts) (run_task-apply t s)
