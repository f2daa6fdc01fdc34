-- ===== src/Reconcile/Resyncer.antt =====
-- resyncer.go: one run of the resync job.
pub mod Plain
use service_broker_proxy.Prelude.{
  String, Bool, true, false, ◌&&◌, Option, none, some, List, [], ◌∷◌, if◌then◌else◌,
}
use service_broker_proxy.Prelude.Dict.{Dict}
use service_broker_proxy.Types.{failed, ServiceBroker, SmBroker, ServiceOffering}
use service_broker_proxy.Exec.{Exec, pure, raise, attempt, ◌>>=◌, ◌>>◌}
use service_broker_proxy.Clients.{
  Env, get_brokers, reset_cache, get_sm_brokers, get_sm_plans, get_sm_service_offerings, new_uuid,
}
use service_broker_proxy.Reconcile.Job.{ResyncJob}
use service_broker_proxy.Reconcile.Brokers.Tasks.{reconcile_brokers}
use service_broker_proxy.Reconcile.Visibilities.{BrokerPlan, offering_map, sm_broker_plans}
use service_broker_proxy.Reconcile.Visibilities.Run.{reconcile_visibilities}

abbrev pub registration : SmBroker → ServiceBroker
registration b = record { guid = b.id; name = b.name; broker_url = b.broker_url }

module _ (env : Env) (r : ResyncJob) where
  -- The loop of getBrokersFromSM.
  unfoldable pub not_blacklisted : List SmBroker → List ServiceBroker
  not_blacklisted [] = []
  not_blacklisted (b ∷ bs) =
      let rest = not_blacklisted bs in
      if env.strings_any_equals r.options.broker_blacklist b.name
      then rest
      else registration b ∷ rest

  -- getBrokersFromSM
  unfoldable pub get_brokers_from_sm : Exec (List ServiceBroker)
  get_brokers_from_sm = do bs ← get_sm_brokers env; pure (not_blacklisted bs)

  -- getSMServiceOfferings
  unfoldable pub sm_service_offerings : Exec (Dict ServiceOffering)
  sm_service_offerings = do os ← get_sm_service_offerings env; pure (offering_map os [])

  -- getSMBrokerPlans
  abbrev pub get_sm_broker_plans :
      Dict ServiceOffering → List ServiceBroker → Exec (Dict BrokerPlan)
  get_sm_broker_plans offerings sm_brokers = do
    plans ← get_sm_plans env
    pure (sm_broker_plans offerings sm_brokers plans)

  -- getSMPlans
  unfoldable pub plans_from_sm : List ServiceBroker → Exec (Dict BrokerPlan)
  plans_from_sm sm_brokers = do
    offerings ← sm_service_offerings
    get_sm_broker_plans offerings sm_brokers

  -- resetPlatformCache; a failure is only logged.
  unfoldable pub reset_platform_cache : Exec (Unit {0})
  reset_platform_cache = if r.is_caching then (do attempt (reset_cache env); pure tt) else pure tt

  -- process
  unfoldable pub process : Bool → Exec (Unit {0})
  process resync_visibilities =
      if r.has_broker_client && r.has_visibility_client
      then (do
        sm_brokers ← get_brokers_from_sm
        sm_plans ← plans_from_sm sm_brokers
        platform_brokers ← get_brokers env
        reconcile_brokers env r platform_brokers sm_brokers
        reset_platform_cache
        (if resync_visibilities then reconcile_visibilities env r sm_plans sm_brokers else pure tt))
      else raise (failed "platform must be able to handle both brokers and visibilities")

  -- Resync: createResyncContext, then the job.
  unfoldable pub resync : Bool → Exec (Unit {0})
  resync resync_visibilities = do new_uuid env; process resync_visibilities
