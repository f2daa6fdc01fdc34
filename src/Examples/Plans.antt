-- ===== src/Examples/Plans.antt =====
-- The theorems on the reconciliation, applied to the sample inputs.
use mathlib.Core.List.{Memᴰ}
use service_broker_proxy.Prelude.{
  String, ◌≡◌, refl, sym, ap, ◌∙◌, inr, false, not, ◌&&◌, ◌||◌, some, List, [], ◌∷◌, map,
  ne_of_test, All,
}
use service_broker_proxy.Prelude.Int.{pos}
use service_broker_proxy.Prelude.Dict.{lookup}
use service_broker_proxy.Types.{ServiceBroker, Visibility}
use service_broker_proxy.Reconcile.Job.{ResyncJob}
use service_broker_proxy.Reconcile.Urls.{broker_id_from_url}
use service_broker_proxy.Reconcile.Brokers.{
  delete_registration, proxied_id, broker_key, broker_tasks,
}
use service_broker_proxy.Reconcile.Brokers.Justified.{Justified, IsIndexed, broker_tasks-Justified}
use service_broker_proxy.Reconcile.Brokers.SharedVariable.{stale_deletion_lost}
use service_broker_proxy.Reconcile.Visibilities.Compare.{get_visibility_key, to_create, to_delete}
use service_broker_proxy.Reconcile.Visibilities.Compare.Laws.{has}
use service_broker_proxy.Reconcile.Visibilities.Compare.Reconciled.{
  AreDistinct, IsLeft, has-reconciled,
}
use service_broker_proxy.Reconcile.Visibilities.Chunks.{get_broker_chunks}
use service_broker_proxy.Reconcile.Visibilities.Chunks.Laws.{AreChunks, get_broker_chunks-AreChunks}
use service_broker_proxy.Reconcile.Brokers.Complete.{Has, IsFor, desired_served}
use service_broker_proxy.Reconcile.Scheduler.{await}
use service_broker_proxy.Reconcile.Scheduler.Calls.{after}
use service_broker_proxy.Reconcile.Visibilities.Run.{reconcile_service_visibilities}
use service_broker_proxy.Reconcile.Visibilities.Run.Repeat.{reconcile_service_visibilities_again}
use service_broker_proxy.Reconcile.Visibilities.Run.Calls.{
  deletes, creates, enable_call, disable_call, failed_deletions, failed_creations,
  reconcile_service_visibilities-calls,
}
use service_broker_proxy.Reconcile.Visibilities.Compare.{compare_loop, create_if_missing, vis_map}
use service_broker_proxy.Types.{failed}
use service_broker_proxy.Exec.{err, ok}
use service_broker_proxy.Prelude.{◌<◌, ◌⊎◌, inl, true, arith}
use service_broker_proxy.Prelude.Dict.{insert, erase, values}
use service_broker_proxy.Reconcile.Visibilities.{
  BrokerPlan, offering_map, sm_broker_plans, public_visibility, convert_all,
}
use service_broker_proxy.Utils.{values_of}
use service_broker_proxy.Reconcile.Visibilities.Plans.{IsPlan}
use service_broker_proxy.Reconcile.Visibilities.Demand.{IsDemanded, to_create-IsDemanded}
use service_broker_proxy.Reconcile.Visibilities.Met.{demand_met}
use service_broker_proxy.Examples.{sample_env, offering, plan, sm_visibility}
use service_broker_proxy.Sbproxy.{resync_job}
use service_broker_proxy.Examples.{own_broker, stale_broker, settings, client}

abbrev job : ResyncJob
job = resync_job settings client

abbrev desired_broker : ServiceBroker
desired_broker = record { guid = "b1"; name = "db"; broker_url = "https://db" }

abbrev visibility : String → String → Visibility
visibility plan org = record {
  is_public = false;
  catalog_plan_id = plan;
  platform_broker_name = "sm-db-b1";
  labels = ("org", org) ∷ [];
}

abbrev key : Visibility → String
key = get_visibility_key "org"

abbrev on_platform : List Visibility
on_platform = visibility "small" "a" ∷ visibility "large" "a" ∷ []

abbrev in_sm : List Visibility
in_sm = visibility "small" "a" ∷ visibility "small" "b" ∷ []

-- The labels and the plans tell the visibilities apart.
on_platform-AreDistinct : AreDistinct key on_platform
unfolding has get_visibility_key lookup
on_platform-AreDistinct = (refl, (refl, tt))

in_sm-AreDistinct : AreDistinct key in_sm
unfolding has get_visibility_key lookup
in_sm-AreDistinct = (refl, (refl, tt))

not_deleted :
    (v : Visibility) → v ≡ visibility "small" "a" → Memᴰ v (visibility "large" "a" ∷ []) → ⊥
not_deleted v e (Memᴰ.head q) =
    ne_of_test "small" "large" refl (ap (λ (x : Visibility). x.catalog_plan_id) (sym e ∙ q))
not_deleted v e (Memᴰ.tail i) = elim i [ ]

-- What the platform has left, in some order.
abbrev left_over : List Visibility
left_over = visibility "small" "b" ∷ visibility "small" "a" ∷ []

as_left :
    (v : Visibility)
    → Memᴰ v left_over
    → (Memᴰ v on_platform × (Memᴰ v (visibility "large" "a" ∷ []) → ⊥))
      ⊎ Memᴰ v (visibility "small" "b" ∷ [])
as_left v (Memᴰ.head e) = inr (Memᴰ.head e)
as_left v (Memᴰ.tail (Memᴰ.head e)) = inl (Memᴰ.head e, not_deleted v e)
as_left v (Memᴰ.tail (Memᴰ.tail i)) = elim i [ ]

all_left :
    (v : Visibility)
    → (Memᴰ v on_platform × (Memᴰ v (visibility "large" "a" ∷ []) → ⊥))
      ⊎ Memᴰ v (visibility "small" "b" ∷ [])
    → Memᴰ v left_over
all_left v (inl (Memᴰ.head e, n)) = Memᴰ.tail (Memᴰ.head e)
all_left v (inl (Memᴰ.tail (Memᴰ.head e), n)) = absurd (n (Memᴰ.head e))
all_left v (inl (Memᴰ.tail (Memᴰ.tail i), n)) = elim i [ ]
all_left v (inr (Memᴰ.head e)) = Memᴰ.head e
all_left v (inr (Memᴰ.tail i)) = elim i [ ]

-- The comparison deletes the visibility of the large plan and creates the one for "b".
left_over-IsLeft :
    IsLeft on_platform (to_delete key on_platform in_sm) (to_create key on_platform in_sm) left_over
unfolding to_delete to_create compare_loop create_if_missing vis_map get_visibility_key lookup
    insert erase values
left_over-IsLeft v = (as_left v, all_left v)

has-reconciled_example :
    has key (key (visibility "small" "b")) left_over ≡ has key (key (visibility "small" "b")) in_sm
has-reconciled_example =
    has-reconciled key on_platform in_sm left_over on_platform-AreDistinct left_over-IsLeft
      (key (visibility "small" "b"))

broker_tasks-Justified_example :
    All
      (Justified job
        (IsIndexed (proxied_id job) (own_broker ∷ stale_broker ∷ []))
        (IsIndexed broker_key (own_broker ∷ stale_broker ∷ []))
        (desired_broker ∷ []))
      (broker_tasks job (1 ∷ []) (own_broker ∷ stale_broker ∷ []) (desired_broker ∷ []))
broker_tasks-Justified_example =
    broker_tasks-Justified job (1 ∷ []) (own_broker ∷ stale_broker ∷ []) (desired_broker ∷ [])

stale_deletion_lost_example :
    (broker_tasks job [] (own_broker ∷ stale_broker ∷ []) []
      ≡ delete_registration own_broker ∷ delete_registration stale_broker ∷ [])
    × (broker_tasks job (1 ∷ []) (own_broker ∷ stale_broker ∷ []) []
        ≡ delete_registration stale_broker ∷ delete_registration stale_broker ∷ [])
unfolding proxied_id broker_id_from_url
stale_deletion_lost_example =
    stale_deletion_lost job own_broker stale_broker {i = "b1"} {j = "b2"} refl refl
      (ne_of_test "b1" "b2" refl)

get_broker_chunks-AreChunks_example :
    (chunks : List (List ServiceBroker)) × (get_broker_chunks
        (own_broker ∷ stale_broker ∷ own_broker ∷ [])
        (pos 2)
      ≡ some chunks)
    × AreChunks 2 (own_broker ∷ stale_broker ∷ own_broker ∷ []) chunks
get_broker_chunks-AreChunks_example =
    get_broker_chunks-AreChunks (own_broker ∷ stale_broker ∷ own_broker ∷ []) 1

abbrev taking_over : ResyncJob
taking_over = record job { options = record job.options { takeover_enabled = true } }

desired_served_example :
    Has
      (IsFor desired_broker)
      (broker_tasks taking_over [] (stale_broker ∷ []) (desired_broker ∷ []))
desired_served_example =
    desired_served taking_over [] (stale_broker ∷ []) (desired_broker ∷ []) desired_broker
      (Memᴰ.head refl) (inl refl)

abbrev to_disable : List Visibility
to_disable = deletes sample_env job on_platform in_sm

abbrev to_enable : List Visibility
to_enable = creates sample_env job on_platform in_sm

reconcile_service_visibilities_again_example :
    reconcile_service_visibilities sample_env job left_over in_sm [] ≡ (ok tt, [])
reconcile_service_visibilities_again_example =
    reconcile_service_visibilities_again sample_env job on_platform left_over in_sm []
      on_platform-AreDistinct in_sm-AreDistinct left_over-IsLeft

reconcile_service_visibilities-calls_example :
    ((0 < failed_deletions sample_env to_disable [])
      × (reconcile_service_visibilities sample_env job on_platform in_sm []
          ≡ (err (failed "errors occurred"), after (map disable_call to_disable) [])))
    ⊎ ((failed_deletions sample_env to_disable [] ≡ 0)
        × (reconcile_service_visibilities sample_env job on_platform in_sm [] ≡ (
          await (failed_creations sample_env to_enable (after (map disable_call to_disable) [])),
          after (map enable_call to_enable) (after (map disable_call to_disable) []),
        )))
unfolding to_delete to_create compare_loop create_if_missing vis_map lookup insert erase values
    get_visibility_key
reconcile_service_visibilities-calls_example =
    reconcile_service_visibilities-calls sample_env job on_platform in_sm [] (omega arith)
      (omega arith)

to_create-IsDemanded_example :
    All
      (IsDemanded job
        (IsPlan (offering ∷ []) (desired_broker ∷ []) (plan ∷ []))
        (sm_visibility ∷ []))
      (to_create key on_platform (
        convert_all job
          (sm_broker_plans (offering_map (offering ∷ []) []) (desired_broker ∷ []) (plan ∷ []))
          (sm_visibility ∷ [])))
to_create-IsDemanded_example =
    to_create-IsDemanded job key on_platform (offering ∷ []) (desired_broker ∷ []) (plan ∷ [])
      (sm_visibility ∷ [])

abbrev broker_plan : BrokerPlan
broker_plan = record { plan = plan; broker = desired_broker }

abbrev demanded : Visibility
demanded = public_visibility job broker_plan

abbrev wanted : List Visibility
wanted = convert_all job (("p1", broker_plan) ∷ []) (sm_visibility ∷ [])

demand_met_example :
    ((has key (key demanded) on_platform
        && not (has key (key demanded) (to_delete key on_platform wanted)))
      || has key (key demanded) (to_create key on_platform wanted))
    ≡ true
unfolding lookup public_visibility values_of
demand_met_example =
    demand_met job key on_platform (("p1", broker_plan) ∷ []) (sm_visibility ∷ []) sm_visibility
      broker_plan demanded (Memᴰ.head refl) refl (inl (inl refl, refl))
