-- ===== src/Reconcile/Brokers/SharedVariable.antt =====
-- The deletions of a resync, whose tasks share the loop variable.
use service_broker_proxy.Prelude.{String, ◌≡◌, refl, ◌≢◌, some, [], ◌∷◌, test_of_ne}
use service_broker_proxy.Prelude.Dict.{insert, values}
use service_broker_proxy.Types.{ServiceBroker}
use service_broker_proxy.Reconcile.Job.{ResyncJob}
use service_broker_proxy.Reconcile.Brokers.{
  delete_registration, proxied_id, add_to_index, index_loop, index_brokers, loop_variable,
  delete_loop, reconcile_loop, broker_tasks,
}

module _ (r : ResyncJob) (b c : ServiceBroker) {i j : String} where
  -- Two proxies of the platform with different ids, and no desired broker. If the first task runs before
  -- the loop goes on, each proxy is deleted once; if it runs one round later, the second proxy is
  -- deleted twice and the first one is not deleted.
  pub stale_deletion_lost :
      proxied_id r b ≡ some i
      → proxied_id r c ≡ some j
      → i ≢ j
      → (broker_tasks r [] (b ∷ c ∷ []) [] ≡ delete_registration b ∷ delete_registration c ∷ [])
        × (broker_tasks r (1 ∷ []) (b ∷ c ∷ []) []
            ≡ delete_registration c ∷ delete_registration c ∷ [])
  unfolding broker_tasks index_brokers index_loop reconcile_loop delete_loop loop_variable values
      insert add_to_index
  stale_deletion_lost p q n = rw (p, q, test_of_ne i j n) (refl, refl)
