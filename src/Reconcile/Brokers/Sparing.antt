-- ===== src/Reconcile/Brokers/Sparing.antt =====
-- The brokers of the platform that the tasks of reconcile_brokers.go change.
use mathlib.Core.List.{Memᴰ}
use service_broker_proxy.Prelude.{
  String, ◌≡◌, refl, subst, true, some, List, ◌∷◌, arith, inl, inr, All-map,
}
use service_broker_proxy.Types.{ServiceBroker}
use service_broker_proxy.Exec.{Log, Result, ok, err, Exec, continue, ◌>>=◌}
use service_broker_proxy.Exec.Calls.{get_brokers}
use service_broker_proxy.Exec.Keeps.{Keeps, Keeps-bind, Keeps-attempt, Keeps-pure}
use service_broker_proxy.Clients
use service_broker_proxy.Clients.{Env}
use service_broker_proxy.Clients.Sparing.{Reported, IsSparing}
use service_broker_proxy.Reconcile.Job.{ResyncJob}
use service_broker_proxy.Reconcile.Scheduler.Invariants.{schedule_all-Keeps}
use service_broker_proxy.Reconcile.Brokers.{
  Task, create_registration, update_registration, fetch_catalog, delete_registration, proxied_id,
  broker_key, broker_tasks,
}
use service_broker_proxy.Reconcile.Brokers.Tasks.{
  create_broker_registration, update_broker_registration, fetch_broker_catalog,
  delete_broker_registration, run_task, reconcile_brokers,
}
use service_broker_proxy.Reconcile.Brokers.Justified.{Justified, IsIndexed, broker_tasks-Justified}

module _ (env : Env) (r : ResyncJob) (P : ServiceBroker → Type 0) (g : String) where
  abbrev Kept : Log → Type 0
  Kept s = Reported env P g s

  create-Kept :
      (b : ServiceBroker) (name : String) → Keeps Kept (create_broker_registration env r b name)
  unfolding create_broker_registration ◌>>=◌
  create-Kept b name = record { at = λ s p. ground arith }

  update-Kept :
      (guid : String) (b : ServiceBroker) (name : String)
      → Keeps Kept (update_broker_registration env r guid b name)
  unfolding update_broker_registration ◌>>=◌
  update-Kept guid b name = record { at = λ s p. ground arith }

  fetch-Kept :
      (guid : String) (b : ServiceBroker) (name : String)
      → Keeps Kept (fetch_broker_catalog env r guid b name)
  unfolding fetch_broker_catalog ◌>>=◌
  fetch-Kept guid b name = record { at = λ s p. ground arith }

  delete-Kept : (b : ServiceBroker) → Keeps Kept (delete_broker_registration env r b)
  unfolding delete_broker_registration ◌>>=◌
  delete-Kept b = record { at = λ s p. p }

  -- Whatever task runs, the platform has reported what it had reported.
  run_task-Kept : (t : Task) → Keeps Kept (run_task env r t)
  unfolding run_task
  run_task-Kept (create_registration b name) = create-Kept b name
  run_task-Kept (update_registration guid b name) = update-Kept guid b name
  run_task-Kept (fetch_catalog guid b name) = fetch-Kept guid b name
  run_task-Kept (delete_registration b) = delete-Kept b

module _ (env : Env) (r : ResyncJob) (IsProxy MayUpdate : ServiceBroker → Type 0)
    (own : (x : ServiceBroker) (k : String) → proxied_id r x ≡ some k → IsProxy x)
    (may : (x : ServiceBroker) → IsProxy x → MayUpdate x)
    (taken : (x : ServiceBroker) → r.options.takeover_enabled ≡ true → MayUpdate x) where
  abbrev Inv : Log → Type 0
  Inv = IsSparing env IsProxy MayUpdate

  abbrev Own : String → Log → Type 0
  Own guid s = Reported env IsProxy guid s × Inv s

  abbrev Updatable : String → Log → Type 0
  Updatable guid s = Reported env MayUpdate guid s × Inv s

  create-Inv :
      (b : ServiceBroker) (name : String) → Keeps Inv (create_broker_registration env r b name)
  unfolding create_broker_registration ◌>>=◌
  create-Inv b name = record { at = λ s p. ground arith }

  update-Updatable :
      (guid : String) (b : ServiceBroker) (name : String)
      → Keeps (Updatable guid) (update_broker_registration env r guid b name)
  unfolding update_broker_registration ◌>>=◌
  update-Updatable guid b name = record { at = λ s p. ground arith }

  fetch-Own :
      (guid : String) (b : ServiceBroker) (name : String)
      → Keeps (Own guid) (fetch_broker_catalog env r guid b name)
  unfolding fetch_broker_catalog ◌>>=◌
  fetch-Own guid b name = record { at = λ s p. ground arith }

  delete-Own : (b : ServiceBroker) → Keeps (Own b.guid) (delete_broker_registration env r b)
  unfolding delete_broker_registration ◌>>=◌
  delete-Own b = record { at = λ s p. ground arith }

  module _ (existing : List ServiceBroker) where
    -- The platform has reported the brokers.
    abbrev Known : Log → Type 0
    Known s =
        ((x : ServiceBroker) → Memᴰ x existing → IsProxy x → Reported env IsProxy x.guid s)
        × ((x : ServiceBroker) → Memᴰ x existing → MayUpdate x → Reported env MayUpdate x.guid s)

    abbrev IsTaskFor : List ServiceBroker → Task → Type 0
    IsTaskFor = Justified r (IsIndexed (proxied_id r) existing) (IsIndexed broker_key existing)

    run_task-Inv :
        (desired : List ServiceBroker) (t : Task) (s : Log)
        → IsTaskFor desired t
        → Known s
        → Inv s
        → Inv (run_task env r t s).1
    unfolding run_task
    run_task-Inv ds (create_registration b name) s j k p = (create-Inv b name).at s p
    run_task-Inv ds (update_registration guid b name) s (i, e, (x, g, inl (m, q))) k p =
        ((update-Updatable guid b name).at s
          (subst (λ y. Reported env MayUpdate y s) g (k.1 x m (may x (own x _ q))), p)).1
    run_task-Inv ds (update_registration guid b name) s (i, e, (x, g, inr (t, (m, q)))) k p =
        ((update-Updatable guid b name).at s
          (subst (λ y. Reported env MayUpdate y s) g (k.1 x m (taken x t)), p)).1
    run_task-Inv ds (fetch_catalog guid b name) s (i, e, (x, g, (m, q), n, u)) k p =
        ((fetch-Own guid b name).at s
          (subst (λ y. Reported env IsProxy y s) g (k.0 x m (own x _ q)), p)).1
    run_task-Inv ds (delete_registration b) s (x, (m, q), n) k p =
        ((delete-Own b).at s (k.0 b m (own b x q), p)).1

    run_task-Keeps :
        (desired : List ServiceBroker) (t : Task)
        → IsTaskFor desired t
        → Keeps (λ s. Known s × Inv s) (run_task env r t)
    run_task-Keeps ds t j = record {
      at = λ s (k, p). (
        (
          λ x m q. (run_task-Kept env r IsProxy x.guid t).at s (k.0 x m q),
          λ x m q. (run_task-Kept env r MayUpdate x.guid t).at s (k.1 x m q),
        ),
        run_task-Inv ds t s j k p,
      );
    }

    reconcile_brokers-Keeps :
        (desired : List ServiceBroker)
        → Keeps (λ s. Known s × Inv s) (reconcile_brokers env r existing desired)
    unfolding reconcile_brokers
    reconcile_brokers-Keeps desired =
        Keeps-bind _ _
          (Keeps-attempt _ (record {
            at = λ s p.
                let tasks = broker_tasks r (env.loop_lags s) existing desired in
                (schedule_all-Keeps _ (run_task env r) tasks (
                    All-map (run_task-Keeps desired) tasks
                      (broker_tasks-Justified r (env.loop_lags s) existing desired))).at
                  s p;
          }))
          (λ _. Keeps-pure tt)

  module _ (desired : List ServiceBroker) (rest : Exec (Unit {0})) (keep : Keeps Inv rest) where
    continue_rest :
        (answer : Result (Unit {0})) (s : Log) → Inv s → Inv (continue answer (λ _. rest) s).1
    continue_rest (ok u) s p = keep.at s p
    continue_rest (err e) s p = p

    keep_rest :
        (existing : List ServiceBroker) (s : Log)
        → Known existing s × Inv s
        → Inv ((reconcile_brokers env r existing desired >>= λ _. rest) s).1
    unfolding ◌>>=◌
    keep_rest existing s p = continue_rest _ _ ((reconcile_brokers-Keeps existing desired).at s p).1

    reconciled_on :
        (answer : Result (List ServiceBroker)) (s : Log)
        → env.get_brokers s ≡ answer
        → Inv s
        → Inv
            (continue answer
              (λ existing. reconcile_brokers env r existing desired >>= λ _. rest)
              (get_brokers ∷ s)).1
    reconciled_on (err e) s i p = (tt, p)
    reconciled_on (ok existing) s i p =
        keep_rest existing _
          ((λ x m q. inl (rw i (x, m, refl, q)), λ x m q. inl (rw i (x, m, refl, q))), (tt, p))

    pub reconciled-IsSparing : Keeps (IsSparing env IsProxy MayUpdate) (
        Clients.get_brokers env >>= λ existing.
        reconcile_brokers env r existing desired >>= λ _. rest)
    unfolding Clients.get_brokers ◌>>=◌
    reconciled-IsSparing = record { at = λ s p. reconciled_on (env.get_brokers s) s refl p }
