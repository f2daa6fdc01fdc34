-- ===== src/Reconcile/Brokers/Platform.antt =====
-- What pkg/platform/brokers.go promises of a platform: its brokers after the calls of a log, if every
-- call succeeds. It is what the tasks of reconcile_brokers.go are run against.
pub mod Effects
use mathlib.Core.List.{Memᴰ}
use service_broker_proxy.Prelude.{
  ℕ, String, Bool, true, false, ◌≡◌, refl, ap, ◌∙◌, ◌≢◌, ◌⊎◌, inl, inr, List, [], ◌∷◌, ◌++◌, map,
  ◌==◌, if◌then◌else◌, Bool-cases, ne_of_test, test_of_ne, sym,
}
use service_broker_proxy.Types.{
  ServiceBroker, CreateRequest, UpdateRequest, DeleteRequest, Credential,
}
use service_broker_proxy.Exec.{Log, ok}
use service_broker_proxy.Exec.Calls.{Call, create_broker, update_broker, delete_broker}
use service_broker_proxy.Clients.{Env}

-- A broker that is updated keeps its GUID.
abbrev pub renamed : String → String → String → ServiceBroker → ServiceBroker
renamed guid name url b = if b.guid == guid then record b { name = name; broker_url = url } else b

unfoldable pub without : String → List ServiceBroker → List ServiceBroker
without guid [] = []
without guid (b ∷ bs) = let rest = without guid bs in if b.guid == guid then rest else b ∷ rest

-- `guid_of` is the GUID that the platform gives a broker that is created for an id.
module _ (guid_of : String → String) (initial : List ServiceBroker) where
  abbrev pub registered : CreateRequest → ServiceBroker
  registered q = record { guid = guid_of q.id; name = q.name; broker_url = q.broker_url }

  abbrev pub listing : Log → List ServiceBroker
  listing [] = initial
  listing (create_broker q ∷ s) = listing s ++ registered q ∷ []
  listing (update_broker q ∷ s) = map (renamed q.guid q.name q.broker_url) (listing s)
  listing (delete_broker q ∷ s) = without q.guid (listing s)
  listing (c ∷ s) = listing s

  -- The platform lists its brokers, and the platform and the Service Manager refuse nothing.
  pub record IsWilling (env : Env) : Type 0 where
    pub lists : (s : Log) → env.get_brokers s ≡ ok (listing s)
    pub created : Log → CreateRequest → ServiceBroker
    pub creates : (s : Log) (q : CreateRequest) → env.create_broker s q ≡ ok (created s q)
    pub updated : Log → UpdateRequest → ServiceBroker
    pub updates : (s : Log) (q : UpdateRequest) → env.update_broker s q ≡ ok (updated s q)
    pub deletes : (s : Log) (q : DeleteRequest) → env.delete_broker s q ≡ ok tt
    pub fetches : (s : Log) (q : UpdateRequest) → env.fetch s q ≡ ok tt
    pub stored : Log → Credential → Bool → Credential
    pub stores :
        (s : Log) (c : Credential) (force : Bool)
        → env.put_credentials s c force ≡ ok (stored s c force)
    pub generated : Log → String
    pub generates : (s : Log) → env.generate_credential s ≡ ok (generated s)
    pub hash : Log → String → String
    pub hashes : (s : Log) (p : String) → env.generate_from_password s p ≡ ok (hash s p)

pub renamed-guid :
    (guid name url : String) (b : ServiceBroker) → (renamed guid name url b).guid ≡ b.guid
renamed-guid guid name url b = elim (Bool-cases (b.guid == guid)) [ inl e ↦ rw e | inr e ↦ rw e ]

pub without-Memᴰ :
    (guid : String) (bs : List ServiceBroker) (b : ServiceBroker)
    → Memᴰ b bs
    → b.guid ≢ guid
    → Memᴰ b (without guid bs)
unfolding without
without-Memᴰ guid [] b i n = elim i [ ]
without-Memᴰ guid (x ∷ xs) b (Memᴰ.head e) n =
    rw (test_of_ne x.guid guid (λ p. n (ap (λ (y : ServiceBroker). y.guid) e ∙ p))) (Memᴰ.head e)
without-Memᴰ guid (x ∷ xs) b (Memᴰ.tail i) n = elim (Bool-cases (x.guid == guid)) [
  | inl e ↦ rw e (without-Memᴰ guid xs b i n)
  | inr e ↦ rw e (Memᴰ.tail (without-Memᴰ guid xs b i n))
]

head-without :
    (guid : String) (x b : ServiceBroker) {xs ys : List ServiceBroker}
    → (x.guid == guid) ≡ false
    → (Memᴰ b ys → Memᴰ b xs × (b.guid ≢ guid))
    → Memᴰ b (x ∷ ys)
    → Memᴰ b (x ∷ xs) × (b.guid ≢ guid)
head-without guid x b e f (Memᴰ.head p) =
    (Memᴰ.head p, λ q. ne_of_test x.guid guid e (sym (ap (λ (y : ServiceBroker). y.guid) p) ∙ q))
head-without guid x b e f (Memᴰ.tail j) = let (j', n) = f j in (Memᴰ.tail j', n)

pub Memᴰ-without :
    (guid : String) (bs : List ServiceBroker) (b : ServiceBroker)
    → Memᴰ b (without guid bs)
    → Memᴰ b bs × (b.guid ≢ guid)
unfolding without
Memᴰ-without guid [] b i = elim i [ ]
Memᴰ-without guid (x ∷ xs) b i = elim (Bool-cases (x.guid == guid)) [
  | inl e ↦ let (j, n) = Memᴰ-without guid xs b (rw e at i) in (Memᴰ.tail j, n)
  | inr e ↦ head-without guid x b e (Memᴰ-without guid xs b) (rw e at i)
]
