-- ===== src/Reconcile/Brokers/Converged.antt =====
-- The brokers of the platform after reconcileBrokers, if every call succeeds.
pub mod Left
pub mod Served
pub mod Tasks
pub mod Whole
pub mod Unique
pub mod Steps
pub mod Again
pub mod Repeat
use mathlib.Core.List.{Memᴰ}
use mathlib.Core.Option.{some-injective}
use text.Mathlib.TextPositions.{starts_with-append}
use service_broker_proxy.Prelude.{
  String, ◌<>◌, ◌≡◌, refl, sym, ap, ◌∙◌, ◌≢◌, ◌⊎◌, inl, inr, true, some, List, [], ◌∷◌, starts_with,
  subst, All,
}
use service_broker_proxy.Types.{ServiceBroker}
use service_broker_proxy.Reconcile.Urls.{get_broker_key}
use service_broker_proxy.Reconcile.Urls.Ids.{HasNoSlash, broker_id_from_url-append}
use service_broker_proxy.Reconcile.Job.{ResyncJob, proxy_name, proxy_url}
use service_broker_proxy.Reconcile.Brokers.{
  Task, create_registration, update_registration, fetch_catalog, delete_registration, proxied_id,
  broker_key,
}
use service_broker_proxy.Reconcile.Brokers.Justified.{NotAmong, Justified, IsIndexed}

module _ (r : ResyncJob) where
  -- The broker is a proxy for the desired one, with its name and a URL of the proxy.
  pub record IsRight (d b : ServiceBroker) : Type 0 where
    pub proxies : proxied_id r b ≡ some d.guid
    pub named : b.name ≡ proxy_name r d
    pub located : starts_with b.broker_url r.sm_path ≡ true

  -- None of the brokers is a proxy for the desired one.
  abbrev pub HasNoProxy : List ServiceBroker → ServiceBroker → Type 0
  HasNoProxy bs d = (b : ServiceBroker) → Memᴰ b bs → proxied_id r b ≡ some d.guid → ⊥

  pub proxied_id-url :
      (d b : ServiceBroker)
      → HasNoSlash d.guid
      → b.broker_url ≡ proxy_url r d
      → proxied_id r b ≡ some d.guid
  unfolding proxied_id
  proxied_id-url d b h e = rw (
    e,
    starts_with-append r.sm_path ("/" <> d.guid),
    broker_id_from_url-append r.sm_path d.guid h,
  )

  pub IsRight-intro :
      (d b : ServiceBroker)
      → HasNoSlash d.guid
      → b.name ≡ proxy_name r d
      → b.broker_url ≡ proxy_url r d
      → IsRight d b
  IsRight-intro d b h n e = record {
    proxies = proxied_id-url d b h e;
    named = n;
    located = rw e (starts_with-append r.sm_path ("/" <> d.guid));
  }

  module _ (guid_of : String → String) (existing desired : List ServiceBroker) where
    -- GUIDs, ids and keys tell brokers apart, also the GUID that the platform will give to a desired broker
    -- without a proxy; no proxy has the name and the URL of a desired broker.
    pub record IsOrderly : Type 0 where
      pub guids :
          (b c : ServiceBroker) → Memᴰ b existing → Memᴰ c existing → b.guid ≡ c.guid → b ≡ c
      pub ids :
          (b c : ServiceBroker) (k : String)
          → Memᴰ b existing
          → Memᴰ c existing
          → proxied_id r b ≡ some k
          → proxied_id r c ≡ some k
          → b ≡ c
      pub desired_ids :
          (d e : ServiceBroker) → Memᴰ d desired → Memᴰ e desired → d.guid ≡ e.guid → d ≡ e
      pub desired_keys :
          (d e : ServiceBroker)
          → Memᴰ d desired
          → Memᴰ e desired
          → get_broker_key d ≡ get_broker_key e
          → d ≡ e
      pub separate :
          (b d : ServiceBroker) (k : String)
          → Memᴰ b existing
          → Memᴰ d desired
          → proxied_id r b ≡ some k
          → get_broker_key b ≢ get_broker_key d
      pub fresh :
          (d b : ServiceBroker)
          → Memᴰ d desired
          → HasNoProxy existing d
          → Memᴰ b existing
          → guid_of d.guid ≢ b.guid
      pub no_slash : (d : ServiceBroker) → Memᴰ d desired → HasNoSlash d.guid

    abbrev pub IsJust : Task → Type 0
    IsJust = Justified r (IsIndexed (proxied_id r) existing) (IsIndexed broker_key existing) desired

pub NotAmong-absurd :
    (d : ServiceBroker) (ds : List ServiceBroker) → Memᴰ d ds → NotAmong d.guid ds → ⊥
NotAmong-absurd d [] i n = elim i [ ]
NotAmong-absurd d (x ∷ xs) (Memᴰ.head e) n = n.0 (ap (λ (y : ServiceBroker). y.guid) (sym e))
NotAmong-absurd d (x ∷ xs) (Memᴰ.tail i) n = NotAmong-absurd d xs i n.1
