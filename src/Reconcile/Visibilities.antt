-- ===== src/Reconcile/Visibilities.antt =====
-- reconcile_visibilities.go: the Service Manager's plans, and how its visibilities become those of the
-- platform. The comparison, the chunks and the calls are in the modules below.
pub mod Compare
pub mod Chunks
pub mod Run
pub mod Plans
pub mod Demand
pub mod Met
use service_broker_proxy.Prelude.{
  String, Bool, true, false, ◌||◌, Option, none, some, List, [], ◌∷◌, ◌++◌, map, ◌==◌,
  if◌then◌else◌,
}
use service_broker_proxy.Prelude.Dict.{Dict, lookup, insert}
use service_broker_proxy.Types.{
  ServiceBroker, Labels, SmVisibility, ServicePlan, ServiceOffering, Visibility,
}
use service_broker_proxy.Utils.{values_of}
use service_broker_proxy.Reconcile.Job.{ResyncJob, proxy_name}

-- brokerPlan; its broker is never nil in the maps that getSMBrokerPlans makes.
pub record BrokerPlan : Type 0 where
  pub plan : ServicePlan
  pub broker : ServiceBroker

-- The map of getSMServiceOfferings.
unfoldable pub offering_map : List ServiceOffering → Dict ServiceOffering → Dict ServiceOffering
offering_map [] m = m
offering_map (o ∷ os) m = offering_map os (insert o.id o m)

-- brokerMap of getSMBrokerPlans
unfoldable pub broker_map : List ServiceBroker → Dict ServiceBroker → Dict ServiceBroker
broker_map [] m = m
broker_map (b ∷ bs) m = broker_map bs (insert b.guid b m)

add_plan_of : ServicePlan → Option ServiceBroker → Dict BrokerPlan → Dict BrokerPlan
add_plan_of p none m = m
add_plan_of p (some b) m = insert p.id (record { plan = p; broker = b }) m

-- One round of the loop of getSMBrokerPlans.
unfoldable pub add_plan :
    Option ServiceOffering → Dict ServiceBroker → ServicePlan → Dict BrokerPlan → Dict BrokerPlan
unfolding add_plan_of
add_plan none brokers p m = m
add_plan (some o) brokers p m = add_plan_of p (lookup o.broker_id brokers) m

unfoldable pub plan_loop :
    Dict ServiceOffering → Dict ServiceBroker → List ServicePlan → Dict BrokerPlan → Dict BrokerPlan
unfolding add_plan
plan_loop offerings brokers [] m = m
plan_loop offerings brokers (p ∷ ps) m =
    plan_loop offerings brokers ps (add_plan (lookup p.service_offering_id offerings) brokers p m)

-- getSMBrokerPlans, on the answer of GetPlans
unfoldable pub sm_broker_plans :
    Dict ServiceOffering → List ServiceBroker → List ServicePlan → Dict BrokerPlan
sm_broker_plans offerings sm_brokers plans = plan_loop offerings (broker_map sm_brokers []) plans []

abbrev pub is_nil {ℓ} : {A : Type ℓ} → List A → Bool
is_nil [] = true
is_nil (x ∷ xs) = false

module _ (r : ResyncJob) where
  -- `visibility.PlatformID == "" || len(visibility.Labels[scopeLabelKey]) == 0`
  unfoldable pub should_be_public : SmVisibility → Bool
  should_be_public v =
      v.platform_id == "" || is_nil (values_of r.visibility_scope_label_key v.labels)

  unfoldable pub public_visibility : BrokerPlan → Visibility
  public_visibility p = record {
    is_public = true;
    catalog_plan_id = p.plan.catalog_id;
    platform_broker_name = proxy_name r p.broker;
    labels = [];
  }

  unfoldable pub scoped_visibility : BrokerPlan → String → Visibility
  scoped_visibility p scope = record {
    is_public = false;
    catalog_plan_id = p.plan.catalog_id;
    platform_broker_name = proxy_name r p.broker;
    labels = (r.visibility_scope_label_key, scope) ∷ [];
  }

  -- convertSMVisibility
  unfoldable pub convert_sm_visibility : SmVisibility → BrokerPlan → List Visibility
  convert_sm_visibility v p =
      if should_be_public v
      then public_visibility p ∷ []
      else map (scoped_visibility p) (values_of r.visibility_scope_label_key v.labels)

  unfoldable pub convert_known : SmVisibility → Option BrokerPlan → List Visibility
  convert_known v none = []
  convert_known v (some p) = convert_sm_visibility v p

  -- The loop of getVisibilitiesFromSM.
  unfoldable pub convert_all : Dict BrokerPlan → List SmVisibility → List Visibility
  convert_all plans [] = []
  convert_all plans (v ∷ vs) =
      convert_known v (lookup v.service_plan_id plans) ++ convert_all plans vs
