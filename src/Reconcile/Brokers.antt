-- ===== src/Reconcile/Brokers.antt =====
-- reconcile_brokers.go: which brokers are created, updated, refetched and deleted. The tasks
-- themselves are in the module below.
pub mod Tasks
pub mod Settled
pub mod SharedVariable
pub mod Justified
pub mod Complete
pub mod Sparing
pub mod Index
pub mod Confirmed
pub mod Threads
pub mod Platform
pub mod Converged
pub mod Necessary
use service_broker_proxy.Prelude.{
  ℕ, zero, suc, String, ◌<>◌, Bool, true, false, not, ◌||◌, Option, none, some, List, [], ◌∷◌, ◌++◌,
  starts_with, ◌==◌, if◌then◌else◌,
}
use service_broker_proxy.Prelude.Dict.{Dict, lookup, insert, erase, values}
use service_broker_proxy.Types.{ServiceBroker}
use service_broker_proxy.Reconcile.Urls.{broker_id_from_url, get_broker_key}
use service_broker_proxy.Reconcile.Job.{ResyncJob, proxy_name}

-- indexBrokers; `none` is the result `("", false)` of the indexing function.
unfoldable pub add_to_index :
    Option String → ServiceBroker → Dict ServiceBroker → Dict ServiceBroker
add_to_index none b m = m
add_to_index (some k) b m = insert k b m

unfoldable pub index_loop :
    (ServiceBroker → Option String) → List ServiceBroker → Dict ServiceBroker → Dict ServiceBroker
index_loop key [] m = m
index_loop key (b ∷ bs) m = index_loop key bs (add_to_index (key b) b m)

unfoldable pub index_brokers :
    (ServiceBroker → Option String) → List ServiceBroker → Dict ServiceBroker
unfolding index_loop
index_brokers key bs = index_loop key bs []

-- The indexing function of brokerKeyMap.
abbrev pub broker_key : ServiceBroker → Option String
broker_key b = some (get_broker_key b)

-- The indexing function of proxyBrokerIDMap: the id of a broker that is already a proxy.
unfoldable pub proxied_id : ResyncJob → ServiceBroker → Option String
proxied_id r b =
    let id = broker_id_from_url b.broker_url in
    if starts_with b.broker_url r.sm_path
    then some id
    else if b.broker_url == r.proxy_path id
    then some id
    else none

-- What the job schedules.
pub data Task : Type 0 where
  create_registration : ServiceBroker → String → Task
  update_registration : String → ServiceBroker → String → Task
  fetch_catalog : String → ServiceBroker → String → Task
  delete_registration : ServiceBroker → Task

-- The loop variable `existingBroker`, which all tasks of the loop share, after some more rounds; after
-- the loop it stays the last broker.
unfoldable pub loop_variable : ServiceBroker → List ServiceBroker → ℕ → ServiceBroker
loop_variable b bs zero = b
loop_variable b [] (suc lag) = b
loop_variable b (c ∷ bs) (suc lag) = loop_variable c bs lag

-- The loop that schedules the deletions.
unfoldable pub delete_loop : List ServiceBroker → List ℕ → List Task
delete_loop [] lags = []
delete_loop (b ∷ bs) [] = delete_registration b ∷ delete_loop bs []
delete_loop (b ∷ bs) (lag ∷ lags) =
    delete_registration (loop_variable b bs lag) ∷ delete_loop bs lags

module _ (r : ResyncJob) where
  -- resyncTakenOverBroker
  unfoldable pub resync_taken_over : ServiceBroker → ServiceBroker → List Task
  resync_taken_over desired existing =
      if not (existing.name == proxy_name r desired)
        || not (starts_with existing.broker_url r.sm_path)
      then update_registration existing.guid desired (proxy_name r desired) ∷ []
      else fetch_catalog existing.guid desired (proxy_name r desired) ∷ []

  -- resyncNotTakenOverBroker
  unfoldable pub resync_not_taken_over : ServiceBroker → Option ServiceBroker → List Task
  resync_not_taken_over desired (some platform_broker) =
      if r.options.takeover_enabled
      then update_registration platform_broker.guid desired (proxy_name r desired) ∷ []
      else []
  resync_not_taken_over desired none = create_registration desired (proxy_name r desired) ∷ []

  unfoldable pub resync_desired :
      ServiceBroker → Option ServiceBroker → Dict ServiceBroker → List Task
  resync_desired desired (some existing) keys = resync_taken_over desired existing
  resync_desired desired none keys =
      resync_not_taken_over desired (lookup (get_broker_key desired) keys)

  -- The loop over desiredBrokers, and the one over what it leaves in proxyBrokerIDMap.
  unfoldable pub reconcile_loop :
      List ServiceBroker → List ℕ → Dict ServiceBroker → Dict ServiceBroker → List Task
  reconcile_loop [] lags proxied keys = delete_loop (values proxied) lags
  reconcile_loop (d ∷ ds) lags proxied keys =
      resync_desired d (lookup d.guid proxied) keys
      ++ reconcile_loop ds lags (erase d.guid proxied) keys

  -- The tasks of reconcileBrokers, in the order in which it schedules them.
  unfoldable pub broker_tasks : List ℕ → List ServiceBroker → List ServiceBroker → List Task
  broker_tasks lags existing desired =
      reconcile_loop desired lags (index_brokers (proxied_id r) existing)
        (index_brokers broker_key existing)

-- logBroker: the fields of a broker in a log message.
abbrev pub log_broker : ServiceBroker → Dict String
log_broker b = ("broker_guid", b.guid) ∷ ("broker_name", b.name) ∷ ("broker_url", b.broker_url) ∷ []
