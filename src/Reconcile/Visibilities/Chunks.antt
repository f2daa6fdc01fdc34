-- ===== src/Reconcile/Visibilities/Chunks.antt =====
-- getBrokerChunks and getBrokersPlans.
pub mod Laws
pub mod Negative
use service_broker_proxy.Prelude.{
  ℕ, zero, suc, Option, none, some, List, [], ◌∷◌, ◌==◌, length, take, drop, if◌then◌else◌,
}
use service_broker_proxy.Prelude.Int.{ℤ, pos, negsuc}
use service_broker_proxy.Prelude.Dict.{Dict, insert}
use service_broker_proxy.Types.{ServiceBroker}
use service_broker_proxy.Reconcile.Visibilities.{BrokerPlan}

module _ {ℓ} {A : Type ℓ} where
  -- The loop of getBrokerChunks from index `i`, on the brokers from that index on: `take` stops at
  -- the end of the slice, as the check on `end` does. `none` means that the fuel ran out.
  unfoldable pub chunk_loop : ℕ → ℕ → List A → Option (List (List A))
  chunk_loop fuel size [] = some []
  chunk_loop zero size (b ∷ bs) = none
  chunk_loop (suc fuel) size (b ∷ bs) =
      let rest = chunk_loop fuel size (drop size (b ∷ bs)) in
      elim rest [ none ↦ none | some chunks ↦ some (take size (b ∷ bs) ∷ chunks) ]

  -- getBrokerChunks. A negative size slices below the start of the brokers, which panics unless
  -- there are none: `none`.
  unfoldable pub get_broker_chunks : List A → ℤ → Option (List (List A))
  get_broker_chunks bs (pos size) = chunk_loop (length bs) size bs
  get_broker_chunks [] (negsuc n) = some []
  get_broker_chunks (b ∷ bs) (negsuc n) = none

-- The inner loop of getBrokersPlans.
unfoldable pub plans_of : ServiceBroker → Dict BrokerPlan → Dict BrokerPlan → Dict BrokerPlan
plans_of b [] plans = plans
plans_of b ((id, p) ∷ m) plans =
    plans_of b m (if p.broker.guid == b.guid then insert id p plans else plans)

unfoldable pub plans_loop : List ServiceBroker → Dict BrokerPlan → Dict BrokerPlan → Dict BrokerPlan
plans_loop [] m plans = plans
plans_loop (b ∷ bs) m plans = plans_loop bs m (plans_of b m plans)

-- getBrokersPlans
unfoldable pub get_brokers_plans : List ServiceBroker → Dict BrokerPlan → Dict BrokerPlan
get_brokers_plans bs m = plans_loop bs m []
