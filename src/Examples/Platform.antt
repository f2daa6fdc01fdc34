-- ===== src/Examples/Platform.antt =====
-- The theorems on the tasks of a resync, applied to a sample platform.
use mathlib.Core.List.{Memᴰ}
use text.Mathlib.TextLemmas.{nil-append, cons-append}
use service_broker_proxy.Prelude.{
  ℕ, ◌<◌, String, ◌≡◌, refl, sym, inl, some, none, List, [], ◌∷◌, arith, eq_iff, subst, ne_of_test,
  ◌<>◌, ◌≢◌, All, ap, ◌∙◌,
}
use service_broker_proxy.Types.{ServiceBroker}
use service_broker_proxy.Exec.{Log, ok}
use service_broker_proxy.Clients.{Env}
use service_broker_proxy.Reconcile.Job.{ResyncJob}
use service_broker_proxy.Reconcile.Urls.{broker_id_from_url, get_broker_key}
use service_broker_proxy.Reconcile.Urls.Ids.{HasNoSlash}
use service_broker_proxy.Reconcile.Brokers.{proxied_id, broker_tasks}
use service_broker_proxy.Reconcile.Brokers.Platform.{listing, IsWilling}
use service_broker_proxy.Reconcile.Brokers.Converged.{IsOrderly}
use service_broker_proxy.Reconcile.Brokers.Converged.Repeat.{IsRefetch, reconcile_brokers_again}
use service_broker_proxy.Reconcile.Brokers.Converged.Whole.{
  IsConverged, reconcile_brokers-IsConverged,
}
use service_broker_proxy.Clients.Sparing.{IsSparing}
use service_broker_proxy.Clients.Traced.{IsTraced}
use service_broker_proxy.Exec.Calls.{get_brokers}
use service_broker_proxy.Reconcile.Brokers.Tasks.{reconcile_brokers}
use service_broker_proxy.Reconcile.Brokers.Threads.{ReconcilesTo}
use service_broker_proxy.Reconcile.Brokers.Threads.Alone.{reconcile_brokers-ReconcilesTo}
use service_broker_proxy.Reconcile.Brokers.Threads.Sparing.{
  IsOwn, MayChange, ReconcilesTo-IsSparing,
}
use service_broker_proxy.Reconcile.Brokers.Threads.Traced.{ReconcilesTo-IsTraced}
use service_broker_proxy.Reconcile.Scheduler.Threads.InTurn.{at}
use service_broker_proxy.Sbproxy.{resync_job}
use service_broker_proxy.Examples.{sample_env, own_broker, stale_broker, settings, client}

abbrev job : ResyncJob
job = resync_job settings client

abbrev foreign_broker : ServiceBroker
foreign_broker = record { guid = "g3"; name = "other"; broker_url = "https://other" }

abbrev desired_broker : ServiceBroker
desired_broker = record { guid = "b3"; name = "kv"; broker_url = "https://kv" }

abbrev before : List ServiceBroker
before = stale_broker ∷ foreign_broker ∷ []

abbrev guid_of : String → String
guid_of id = "of-" <> id

abbrev listing_env : Env
listing_env = record sample_env { get_brokers = λ s. ok (listing guid_of before s) }

listing_env-IsWilling : IsWilling guid_of before listing_env
listing_env-IsWilling = record {
  lists = λ s. refl;
  created = λ s q. own_broker;
  creates = λ s q. refl;
  updated = λ s q. own_broker;
  updates = λ s q. refl;
  deletes = λ s q. refl;
  fetches = λ s q. refl;
  stored = λ s c force. record c { id = "c1" };
  stores = λ s c force. refl;
  generated = λ s. "secret";
  generates = λ s. refl;
  hash = λ s p. "hash";
  hashes = λ s p. refl;
}

-- A broker of the platform is one of the two.
of_two :
    (P : ServiceBroker → Type 0)
    → P stale_broker
    → P foreign_broker
    → (b : ServiceBroker) → Memᴰ b before
    → P b
of_two P p q b (Memᴰ.head e) = subst P (sym e) p
of_two P p q b (Memᴰ.tail (Memᴰ.head e)) = subst P (sym e) q
of_two P p q b (Memᴰ.tail (Memᴰ.tail i)) = elim i [ ]

of_one :
    (P : ServiceBroker → Type 0)
    → P desired_broker
    → (d : ServiceBroker) → Memᴰ d (desired_broker ∷ [])
    → P d
of_one P p d (Memᴰ.head e) = subst P (sym e) p
of_one P p d (Memᴰ.tail i) = elim i [ ]

foreign_id : proxied_id job foreign_broker ≡ none
unfolding proxied_id broker_id_from_url
foreign_id = refl

no_id : (b : ServiceBroker) {k : String} → proxied_id job b ≡ none → proxied_id job b ≡ some k → ⊥
no_id b p q = cc

orderly : IsOrderly job guid_of before (desired_broker ∷ [])
unfolding get_broker_key
orderly = record {
  guids = λ b c m n.
      of_two (λ b. b.guid ≡ c.guid → b ≡ c)
        (of_two (λ c. "g2" ≡ c.guid → stale_broker ≡ c) (λ p. refl)
          (λ p. ground (arith, eq_iff "g2" "g3")) c n)
        (of_two (λ c. "g3" ≡ c.guid → foreign_broker ≡ c) (λ p. ground (arith, eq_iff "g3" "g2"))
          (λ p. refl) c n)
        b m;
  ids = λ b c k m n.
      of_two (λ b. proxied_id job b ≡ some k → proxied_id job c ≡ some k → b ≡ c)
        (of_two
          (λ c. proxied_id job stale_broker ≡ some k → proxied_id job c ≡ some k → stale_broker ≡ c)
          (λ p q. refl) (λ p q. absurd (no_id foreign_broker foreign_id q)) c n)
        (λ p q. absurd (no_id foreign_broker foreign_id p)) b m;
  desired_ids = λ d e m n p. of_one (λ d. d ≡ e) (of_one (λ e. desired_broker ≡ e) refl e n) d m;
  desired_keys = λ d e m n p. of_one (λ d. d ≡ e) (of_one (λ e. desired_broker ≡ e) refl e n) d m;
  separate = λ b d k m n p.
      of_one (λ d. get_broker_key b ≢ get_broker_key d)
        (of_two (λ b. get_broker_key b ≢ get_broker_key desired_broker) (ne_of_test _ _ refl)
          (ne_of_test _ _ refl) b m)
        d n;
  fresh = λ d b m new n.
      of_one (λ d. guid_of d.guid ≢ b.guid)
        (of_two (λ b. guid_of "b3" ≢ b.guid) (ne_of_test _ _ refl) (ne_of_test _ _ refl) b n) d m;
  no_slash = of_one (λ d. HasNoSlash d.guid) (refl, (refl, tt));
}

abbrev desired : List ServiceBroker
desired = desired_broker ∷ []

-- What the platform lists after the resync of the brokers.
abbrev after : List ServiceBroker
after = listing guid_of before (reconcile_brokers listing_env job before desired []).1

reconcile_brokers-IsConverged_example : IsConverged job before desired after
reconcile_brokers-IsConverged_example =
    reconcile_brokers-IsConverged listing_env job guid_of before listing_env-IsWilling [] before
      desired after orderly (λ d m. inl refl) (tt, tt) refl refl refl

abbrev rest_of : String → String
rest_of String.[] = ""
rest_of (String.◌∷◌ c rest) = rest

rest_of-guid_of : (s : String) → rest_of (rest_of (rest_of (guid_of s))) ≡ s
rest_of-guid_of s = rw cons-append (rw cons-append (rw cons-append (rw nil-append refl)))

prefix_apart : (s t : String) → guid_of s ≡ guid_of t → s ≡ t
prefix_apart s t p =
    sym (rest_of-guid_of s) ∙ ap (λ x. rest_of (rest_of (rest_of x))) p ∙ rest_of-guid_of t

-- What the second resync does, with a deletion that would read the variable one round late.
reconcile_brokers_again_example :
    All IsRefetch (broker_tasks job (1 ∷ []) after desired)
    × (listing_env.get_brokers
          (reconcile_brokers listing_env job after desired
            (reconcile_brokers listing_env job before desired []).1).1
        ≡ ok after)
reconcile_brokers_again_example =
    reconcile_brokers_again listing_env job guid_of before listing_env-IsWilling prefix_apart []
      before desired after (1 ∷ []) orderly (λ d m. inl refl) (tt, tt) refl refl refl

-- The log of the tasks one after the other, once the platform has listed its brokers.
abbrev end_log : Log
end_log = (reconcile_brokers listing_env job before desired (get_brokers ∷ [])).1

one_slot : 0 < 1
one_slot = omega arith

abbrev run_to_end :
    (errors : ℕ) × ReconcilesTo listing_env job 1 [] before desired
      (get_brokers ∷ [])
      (at [] [] errors end_log)
run_to_end =
    reconcile_brokers-ReconcilesTo listing_env job 1 before desired (get_brokers ∷ []) one_slot

ReconcilesTo-IsSparing_example : IsSparing listing_env (IsOwn job) (MayChange job) end_log
ReconcilesTo-IsSparing_example =
    ReconcilesTo-IsSparing listing_env job 1 [] before desired [] refl tt run_to_end.1

ReconcilesTo-IsTraced_example : IsTraced listing_env end_log
ReconcilesTo-IsTraced_example =
    ReconcilesTo-IsTraced listing_env job 1 [] before desired (get_brokers ∷ []) (tt, tt)
      run_to_end.1
