-- ===== src/Sbproxy/Sparing.antt =====
-- The brokers of the platform that the whole proxy changes.
use text.Mathlib.TextPositions.{starts_with-append}
use service_broker_proxy.Prelude.{
  String, ◌<>◌, ◌≡◌, ◌⊎◌, inl, inr, true, some, List, arith, starts_with, ◌==◌, eq_iff, Bool-cases,
}
use service_broker_proxy.Types.{ServiceBroker, SmBroker}
use service_broker_proxy.Exec.{Log}
use service_broker_proxy.Clients.{Env}
use service_broker_proxy.Clients.Sparing.{IsSparing, plain-IsSparing}
use service_broker_proxy.Handlers.Broker.{broker_proxy_path}
use service_broker_proxy.Handlers.Broker.Sparing.{on_update-IsSparing, on_delete-IsSparing}
use service_broker_proxy.Handlers.Broker.Sparing.Create.{on_create-IsSparing}
use service_broker_proxy.Reconcile.Urls.{broker_id_from_url}
use service_broker_proxy.Reconcile.Brokers.{proxied_id}
use service_broker_proxy.Reconcile.Brokers.Sparing.{reconciled-IsSparing}
use service_broker_proxy.Reconcile.Reconciler.{Message}
use service_broker_proxy.Sbproxy.{
  Settings, PlatformClient, Libraries, sm_path, broker_handler, resync_job, process_messages,
}
use service_broker_proxy.Sbproxy.Plain.{process_messages-Keeps}

module _ (c : Settings) (p : PlatformClient) where
  -- The URL of the broker is under the proxy's, or it is a legacy URL of the proxy.
  abbrev pub IsProxy : ServiceBroker → Type 0
  IsProxy b =
      (starts_with b.broker_url (sm_path c p) ≡ true)
      ⊎ ((id : String) × (b.broker_url ≡ (resync_job c p).proxy_path id))

  abbrev pub MayUpdate : ServiceBroker → Type 0
  MayUpdate b = IsProxy b ⊎ (c.reconcile.takeover_enabled ≡ true)

  proxied-IsProxy :
      (b : ServiceBroker) (k : String) → proxied_id (resync_job c p) b ≡ some k → IsProxy b
  unfolding proxied_id
  proxied-IsProxy b k h = elim (Bool-cases (starts_with b.broker_url (sm_path c p))) [
    | inl e ↦ inl e
    | inr e ↦
        let id = broker_id_from_url b.broker_url in
        elim (Bool-cases (b.broker_url == (resync_job c p).proxy_path id)) [
          | inl u ↦ inr (id, (eq_iff b.broker_url _).0 u)
          | inr u ↦ ground (arith, rw (e, u) at h)
        ]
  ]

  path-IsProxy :
      (s : SmBroker) (b : ServiceBroker)
      → b.broker_url ≡ broker_proxy_path (broker_handler c p) s
      → IsProxy b
  path-IsProxy s b e = inl (rw e (starts_with-append (sm_path c p) ("/" <> s.id)))

module _ (env : Env) (d : Libraries) (c : Settings) (p : PlatformClient) where
  -- Whatever messages the proxy processes, and whatever the platform and the Service Manager answer, with
  -- the tasks of a resync run one after the other, and however late those that share a loop variable read
  -- it: in a log that satisfies the invariant before, as the empty one does, each broker that is deleted
  -- or refetched was reported by the platform before, with that GUID and a URL of the proxy; and so was
  -- each broker that is updated, or takeover is enabled and it was reported with any URL.
  pub process_messages-IsSparing :
      (ms : List Message) (s : Log)
      → IsSparing env (IsProxy c p) (MayUpdate c p) s
      → IsSparing env (IsProxy c p) (MayUpdate c p) (process_messages env d c p ms s)
  process_messages-IsSparing =
      process_messages-Keeps (plain-IsSparing env _ _) env d c p
        (on_create-IsSparing env (broker_handler c p) _ _ (λ b e. inr e) d.broker_payload)
        (on_update-IsSparing env (broker_handler c p) _ _ (path-IsProxy c p) (λ b q. inl q)
          d.broker_payload)
        (on_delete-IsSparing env (broker_handler c p) _ _ (path-IsProxy c p) (λ b q. inl q)
          d.broker_payload)
        (reconciled-IsSparing env (resync_job c p) _ _ (proxied-IsProxy c p) (λ b q. inl q)
          (λ b e. inr e))
