-- ===== src/Reconcile/Brokers/Index.antt =====
-- indexBrokers and its look-ups.
use service_broker_proxy.Prelude.{
  String, ◌≡◌, refl, ◌∙◌, Bool, false, Option, none, some, List, [], ◌∷◌, ◌==◌, if◌then◌else◌,
}
use service_broker_proxy.Prelude.Dict.{Dict, lookup, lookup-insert}
use service_broker_proxy.Types.{ServiceBroker}
use service_broker_proxy.Reconcile.Brokers.{add_to_index, index_loop, index_brokers}

abbrev pub has_key : Option String → String → Bool
has_key none k = false
has_key (some j) k = j == k

-- The last broker of the list that the indexing function gives the key, or else the default.
unfoldable pub last_with :
    (ServiceBroker → Option String)
    → String
    → List ServiceBroker
    → Option ServiceBroker
    → Option ServiceBroker
last_with key k [] found = found
last_with key k (b ∷ bs) found = last_with key k bs (if has_key (key b) k then some b else found)

module _ (key : ServiceBroker → Option String) (k : String) where
  lookup-add :
      (j : Option String) (b : ServiceBroker) (m : Dict ServiceBroker)
      → lookup k (add_to_index j b m) ≡ (if has_key j k then some b else lookup k m)
  unfolding add_to_index
  lookup-add none b m = refl
  lookup-add (some i) b m = lookup-insert i k b m

  lookup-index_loop :
      (bs : List ServiceBroker) (m : Dict ServiceBroker)
      → lookup k (index_loop key bs m) ≡ last_with key k bs (lookup k m)
  unfolding index_loop last_with
  lookup-index_loop [] m = refl
  lookup-index_loop (b ∷ bs) m = lookup-index_loop bs _ ∙ rw (lookup-add (key b) b m)

  -- The index has for a key the last broker with that key, and nothing if there is none.
  pub lookup-index_brokers :
      (bs : List ServiceBroker) → lookup k (index_brokers key bs) ≡ last_with key k bs none
  unfolding index_brokers lookup
  lookup-index_brokers bs = lookup-index_loop bs []
