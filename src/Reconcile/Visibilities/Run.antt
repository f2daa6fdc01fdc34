-- ===== src/Reconcile/Visibilities/Run.antt =====
-- The calls of reconcile_visibilities.go.
pub mod Calls
pub mod Repeat
use service_broker_proxy.Prelude.{
  zero, suc, String, Bool, true, false, Option, none, some, List, [], ◌∷◌, map, if◌then◌else◌,
}
use service_broker_proxy.Prelude.Int.{ℤ, pos, negsuc}
use service_broker_proxy.Prelude.Dict.{Dict}
use service_broker_proxy.Types.{
  slice_out_of_range, ServiceBroker, Labels, Visibility, ModifyPlanAccessRequest,
}
use service_broker_proxy.Exec.{Exec, pure, raise, attempt, ◌>>=◌, ◌>>◌}
use service_broker_proxy.Clients.{
  Env, enable_access_for_plan, disable_access_for_plan, get_visibilities_by_brokers,
  get_sm_visibilities,
}
use service_broker_proxy.Reconcile.Job.{ResyncJob, proxy_name}
use service_broker_proxy.Reconcile.Scheduler.{schedule_all}
use service_broker_proxy.Reconcile.Visibilities.{BrokerPlan, convert_all}
use service_broker_proxy.Reconcile.Visibilities.Compare.{get_visibility_key, to_create, to_delete}
use service_broker_proxy.Reconcile.Visibilities.Chunks.{get_broker_chunks, get_brokers_plans}

abbrev pub is_zero : ℤ → Bool
is_zero (pos zero) = true
is_zero (pos (suc n)) = false
is_zero (negsuc n) = false

-- mapToLabels
unfoldable pub map_to_labels : Dict String → Labels
map_to_labels [] = []
map_to_labels ((k, v) ∷ m) = (k, v ∷ []) ∷ map_to_labels m

abbrev pub access_request : Visibility → ModifyPlanAccessRequest
access_request v = record {
  broker_name = v.platform_broker_name;
  catalog_plan_id = v.catalog_plan_id;
  labels = map_to_labels v.labels;
}

-- `planIDs` of getVisibilitiesFromSM
unfoldable pub plan_ids : Dict BrokerPlan → List String
plan_ids [] = []
plan_ids ((id, p) ∷ m) = p.plan.id ∷ plan_ids m

module _ (env : Env) where
  -- createVisibility
  unfoldable pub create_visibility : Visibility → Exec (Unit {0})
  create_visibility v = enable_access_for_plan env (access_request v)

  -- deleteVisibility
  unfoldable pub delete_visibility : Visibility → Exec (Unit {0})
  delete_visibility v = disable_access_for_plan env (access_request v)

  -- createVisibilities
  unfoldable pub create_visibilities : List Visibility → Exec (Unit {0})
  create_visibilities vs = schedule_all (map create_visibility vs)

  -- deleteVisibilities
  unfoldable pub delete_visibilities : List Visibility → Exec (Unit {0})
  delete_visibilities vs = schedule_all (map delete_visibility vs)

module _ (env : Env) (r : ResyncJob) where
  abbrev pub visibility_key : Visibility → String
  visibility_key = get_visibility_key r.visibility_scope_label_key

  -- reconcileServiceVisibilities; an error stands for its result `true`.
  unfoldable pub reconcile_service_visibilities :
      List Visibility → List Visibility → Exec (Unit {0})
  reconcile_service_visibilities platform_vis sm_vis = do
    delete_visibilities env (to_delete visibility_key platform_vis sm_vis)
    create_visibilities env (to_create visibility_key platform_vis sm_vis)

  -- getVisibilitiesFromSM
  unfoldable pub get_visibilities_from_sm : Bool → Dict BrokerPlan → Exec (List Visibility)
  get_visibilities_from_sm use_field_query plans = do
    vs ← get_sm_visibilities env (if use_field_query then some (plan_ids plans) else none)
    pure (convert_all r plans vs)

  -- brokerNames
  unfoldable pub broker_names : List ServiceBroker → List String
  broker_names = map (proxy_name r)

  -- getPlatformVisibilitiesByBrokersFromPlatform
  abbrev pub get_platform_visibilities : List ServiceBroker → Exec (List Visibility)
  get_platform_visibilities brokers = get_visibilities_by_brokers env (broker_names brokers)

  -- reconcilePlansVisibilities
  unfoldable pub reconcile_plans_visibilities :
      Bool → Dict BrokerPlan → List ServiceBroker → Exec (Unit {0})
  reconcile_plans_visibilities use_field_query plans brokers = do
    sm_vis ← get_visibilities_from_sm use_field_query plans
    platform_vis ← get_platform_visibilities brokers
    reconcile_service_visibilities platform_vis sm_vis

  -- The loop over the chunks; an error of a chunk is only logged.
  unfoldable pub reconcile_chunks : Dict BrokerPlan → List (List ServiceBroker) → Exec (Unit {0})
  reconcile_chunks plans [] = pure tt
  reconcile_chunks plans (chunk ∷ chunks) = do
    attempt (reconcile_plans_visibilities true (get_brokers_plans chunk plans) chunk)
    reconcile_chunks plans chunks

  unfoldable pub reconcile_in_chunks :
      Dict BrokerPlan → Option (List (List ServiceBroker)) → Exec (Unit {0})
  reconcile_in_chunks plans none = raise slice_out_of_range
  reconcile_in_chunks plans (some chunks) = reconcile_chunks plans chunks

  -- reconcileVisibilities
  unfoldable pub reconcile_visibilities : Dict BrokerPlan → List ServiceBroker → Exec (Unit {0})
  reconcile_visibilities plans brokers =
      let size = r.options.visibility_broker_chunk_size in
      if is_zero size
      then (do attempt (reconcile_plans_visibilities false plans brokers); pure tt)
      else reconcile_in_chunks plans (get_broker_chunks brokers size)
