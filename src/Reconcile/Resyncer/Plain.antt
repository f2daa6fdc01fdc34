-- ===== src/Reconcile/Resyncer/Plain.antt =====
-- Invariants of the log that plain calls keep, for the resync job.
use service_broker_proxy.Prelude.{Bool, true, false, Option, none, some, List, [], ◌∷◌, All-always}
use service_broker_proxy.Prelude.Dict.{Dict}
use service_broker_proxy.Types.{ServiceBroker, Visibility}
use service_broker_proxy.Exec.{Log, Exec, ◌>>=◌}
use service_broker_proxy.Exec.Keeps.{
  Keeps, Keeps-bind, Keeps-attempt, Keeps-pure, Keeps-if, keeps_rules,
}
use service_broker_proxy.Clients
use service_broker_proxy.Clients.{Env}
use service_broker_proxy.Reconcile.Brokers.Tasks.{reconcile_brokers}
use service_broker_proxy.Clients.Plain.{
  KeepsPlain, plain_calls, reset_cache-Keeps, enable_access_for_plan-Keeps,
  disable_access_for_plan-Keeps,
}
use service_broker_proxy.Reconcile.Job.{ResyncJob}
use service_broker_proxy.Reconcile.Scheduler.Invariants.{schedule_all-Keeps}
use service_broker_proxy.Reconcile.Visibilities.{BrokerPlan}
use service_broker_proxy.Reconcile.Visibilities.Run.{
  access_request, create_visibility, delete_visibility, create_visibilities, delete_visibilities,
  reconcile_service_visibilities, get_visibilities_from_sm, reconcile_plans_visibilities, is_zero,
  reconcile_chunks, reconcile_in_chunks, reconcile_visibilities,
}
use service_broker_proxy.Reconcile.Resyncer.{
  get_brokers_from_sm, sm_service_offerings, plans_from_sm, reset_platform_cache, process, resync,
}

module _ {P : Log → Type 0} (plain : KeepsPlain P) (env : Env) where
  create_visibilities-Keeps : (vs : List Visibility) → Keeps P (create_visibilities env vs)
  unfolding create_visibilities create_visibility
  create_visibilities-Keeps vs =
      schedule_all-Keeps _ (create_visibility env) vs
        (All-always (λ v. enable_access_for_plan-Keeps plain env (access_request v)) vs)

  delete_visibilities-Keeps : (vs : List Visibility) → Keeps P (delete_visibilities env vs)
  unfolding delete_visibilities delete_visibility
  delete_visibilities-Keeps vs =
      schedule_all-Keeps _ (delete_visibility env) vs
        (All-always (λ v. disable_access_for_plan-Keeps plain env (access_request v)) vs)

ruleset rules = (keeps_rules, plain_calls, create_visibilities-Keeps, delete_visibilities-Keeps)

module _ {P : Log → Type 0} (plain : KeepsPlain P) (env : Env) (r : ResyncJob) where
  reconcile_plans_visibilities-Keeps :
      (q : Bool) (plans : Dict BrokerPlan) (bs : List ServiceBroker)
      → Keeps P (reconcile_plans_visibilities env r q plans bs)
  unfolding reconcile_plans_visibilities get_visibilities_from_sm reconcile_service_visibilities
  reconcile_plans_visibilities-Keeps q plans bs = search rules

  reconcile_chunks-Keeps :
      (plans : Dict BrokerPlan) (chunks : List (List ServiceBroker))
      → Keeps P (reconcile_chunks env r plans chunks)
  unfolding reconcile_chunks
  reconcile_chunks-Keeps plans [] = search rules
  reconcile_chunks-Keeps plans (chunk ∷ chunks) =
      Keeps-bind _ _ (Keeps-attempt _ (reconcile_plans_visibilities-Keeps true _ chunk))
        (λ _. reconcile_chunks-Keeps plans chunks)

  reconcile_in_chunks-Keeps :
      (plans : Dict BrokerPlan) (chunks : Option (List (List ServiceBroker)))
      → Keeps P (reconcile_in_chunks env r plans chunks)
  unfolding reconcile_in_chunks
  reconcile_in_chunks-Keeps plans none = search rules
  reconcile_in_chunks-Keeps plans (some chunks) = reconcile_chunks-Keeps plans chunks

  reconcile_visibilities-Keeps :
      (plans : Dict BrokerPlan) (bs : List ServiceBroker)
      → Keeps P (reconcile_visibilities env r plans bs)
  unfolding reconcile_visibilities
  reconcile_visibilities-Keeps plans bs =
      Keeps-if (is_zero r.options.visibility_broker_chunk_size) _ _
        (Keeps-bind _ _ (Keeps-attempt _ (reconcile_plans_visibilities-Keeps false plans bs))
          (λ _. Keeps-pure tt))
        (reconcile_in_chunks-Keeps plans _)

  reset_platform_cache-Keeps : Keeps P (reset_platform_cache env r)
  unfolding reset_platform_cache
  reset_platform_cache-Keeps =
      Keeps-if r.is_caching _ _
        (Keeps-bind _ _ (Keeps-attempt _ (reset_cache-Keeps plain env)) (λ _. Keeps-pure tt))
        (Keeps-pure tt)

  -- reconcileBrokers is the one part with other calls.
  module _
      (reconciled : (desired : List ServiceBroker) (rest : Exec (Unit {0}))
        → Keeps P rest
        → Keeps P (
            Clients.get_brokers env >>= λ existing.
            reconcile_brokers env r existing desired >>= λ _. rest)) where
    process-Keeps : (vis : Bool) → Keeps P (process env r vis)
    unfolding process get_brokers_from_sm plans_from_sm sm_service_offerings
    process-Keeps vis =
        search (rules, reconciled, reconcile_visibilities-Keeps, reset_platform_cache-Keeps) depth
          12

    pub resync-Keeps : (vis : Bool) → Keeps P (resync env r vis)
    unfolding resync
    resync-Keeps vis = search (rules, process-Keeps)
