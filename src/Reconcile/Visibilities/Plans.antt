-- ===== src/Reconcile/Visibilities/Plans.antt =====
-- The plans, offerings and brokers behind the map of getSMBrokerPlans.
use mathlib.Core.List.{Memᴰ}
use service_broker_proxy.Prelude.{String, ◌≡◌, refl, Option, none, some, List, [], ◌∷◌}
use service_broker_proxy.Prelude.Dict.{Dict, lookup}
use service_broker_proxy.Prelude.Dict.Entries.{Entries, Entries-insert, Entries-lookup}
use service_broker_proxy.Types.{ServiceBroker, ServicePlan, ServiceOffering}
use service_broker_proxy.Reconcile.Visibilities.{
  BrokerPlan, offering_map, broker_map, add_plan_of, add_plan, plan_loop, sm_broker_plans,
}

-- An offering of the list with the id.
abbrev pub IsOffering : List ServiceOffering → String → ServiceOffering → Type 0
IsOffering os id o = Memᴰ o os × (o.id ≡ id)

abbrev pub IsBroker : List ServiceBroker → String → ServiceBroker → Type 0
IsBroker bs id b = Memᴰ b bs × (b.guid ≡ id)

-- A plan of the list with the id, and the broker of its offering.
abbrev pub IsPlan :
    List ServiceOffering → List ServiceBroker → List ServicePlan → String → BrokerPlan → Type 0
IsPlan os bs ps id p =
    Memᴰ p.plan ps
    × (p.plan.id ≡ id)
    × ((o : ServiceOffering) × IsOffering os p.plan.service_offering_id o
        × IsBroker bs o.broker_id p.broker)

offering_map-Entries :
    (all os : List ServiceOffering) (m : Dict ServiceOffering)
    → ((o : ServiceOffering) → Memᴰ o os → Memᴰ o all)
    → Entries (IsOffering all) m
    → Entries (IsOffering all) (offering_map os m)
unfolding offering_map
offering_map-Entries all [] m f h = h
offering_map-Entries all (o ∷ os) m f h =
    offering_map-Entries all os _ (λ x i. f x (Memᴰ.tail i))
      (Entries-insert _ o.id o m (f o (Memᴰ.head refl), refl) h)

broker_map-Entries :
    (all bs : List ServiceBroker) (m : Dict ServiceBroker)
    → ((b : ServiceBroker) → Memᴰ b bs → Memᴰ b all)
    → Entries (IsBroker all) m
    → Entries (IsBroker all) (broker_map bs m)
unfolding broker_map
broker_map-Entries all [] m f h = h
broker_map-Entries all (b ∷ bs) m f h =
    broker_map-Entries all bs _ (λ x i. f x (Memᴰ.tail i))
      (Entries-insert _ b.guid b m (f b (Memᴰ.head refl), refl) h)

module _ (os : List ServiceOffering) (bs : List ServiceBroker) (all : List ServicePlan) where
  add_plan_of-Entries :
      (p : ServicePlan) (found : Option ServiceBroker) (m : Dict BrokerPlan) (o : ServiceOffering)
      → Memᴰ p all
      → IsOffering os p.service_offering_id o
      → ((b : ServiceBroker) → found ≡ some b → IsBroker bs o.broker_id b)
      → Entries (IsPlan os bs all) m
      → Entries (IsPlan os bs all) (add_plan_of p found m)
  unfolding add_plan_of
  add_plan_of-Entries p none m o i j g e = e
  add_plan_of-Entries p (some b) m o i j g e =
      Entries-insert _ p.id (record { plan = p; broker = b }) m (i, refl, (o, j, g b refl)) e

  module _ (offerings : Dict ServiceOffering) (brokers : Dict ServiceBroker)
      (are_offerings : Entries (IsOffering os) offerings)
      (are_brokers : Entries (IsBroker bs) brokers) where
    add_plan-Entries :
        (o : Option ServiceOffering) (p : ServicePlan) (m : Dict BrokerPlan)
        → Memᴰ p all
        → lookup p.service_offering_id offerings ≡ o
        → Entries (IsPlan os bs all) m
        → Entries (IsPlan os bs all) (add_plan o brokers p m)
    unfolding add_plan
    add_plan-Entries none p m i f e = e
    add_plan-Entries (some o) p m i f e =
        add_plan_of-Entries p (lookup o.broker_id brokers) m o i
          (Entries-lookup _ p.service_offering_id offerings are_offerings f)
          (λ b q. Entries-lookup _ o.broker_id brokers are_brokers q) e

    plan_loop-Entries :
        (ps : List ServicePlan) (m : Dict BrokerPlan)
        → ((p : ServicePlan) → Memᴰ p ps → Memᴰ p all)
        → Entries (IsPlan os bs all) m
        → Entries (IsPlan os bs all) (plan_loop offerings brokers ps m)
    unfolding plan_loop
    plan_loop-Entries [] m f e = e
    plan_loop-Entries (p ∷ ps) m f e =
        plan_loop-Entries ps _ (λ x i. f x (Memᴰ.tail i))
          (add_plan-Entries _ p m (f p (Memᴰ.head refl)) refl e)

  pub sm_broker_plans-Entries :
      Entries (IsPlan os bs all) (sm_broker_plans (offering_map os []) bs all)
  unfolding sm_broker_plans
  sm_broker_plans-Entries =
      plan_loop-Entries _ _ (offering_map-Entries os os [] (λ x i. i) tt)
        (broker_map-Entries bs bs [] (λ x i. i) tt) all [] (λ x i. i) tt
