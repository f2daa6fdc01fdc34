-- ===== src/Handlers/Broker/Ownership.antt =====
-- OnUpdate and OnDelete of broker_handler.go, and the brokers of the platform that they touch.
use service_broker_proxy.Prelude.{
  String, ◌<>◌, ◌≡◌, refl, Bool, true, false, Option, none, some, [], ◌∷◌, arith, ◌==◌, eq_iff,
  Bool-cases, inl, inr,
}
use service_broker_proxy.Types.{
  Error, Credential, not_taken_over, ServiceBroker, SmBroker, Notification,
}
use service_broker_proxy.Exec.{Log, Result, ◌>>=◌}
use service_broker_proxy.Exec.Calls.{
  Call, get_broker_by_name, create_broker, update_broker, delete_broker, fetch,
}
use service_broker_proxy.Exec.Keeps.{Keeps, Keeps-perform, Keeps-raise, keeps_rules}
use service_broker_proxy.Clients
use service_broker_proxy.Clients.{Env}
use service_broker_proxy.Handlers.Payload.{BrokerPayload}
use service_broker_proxy.Handlers.Broker.{
  BrokerHandler, Login, login, register, activate, reset_broker_cache, broker_proxy_path,
}
use service_broker_proxy.Handlers.Broker.Update.{
  found_broker, update_request, rename, refetch, update_existing, update_for, on_update,
}
use service_broker_proxy.Handlers.Broker.Delete.{delete_existing, delete_for, on_delete}

abbrev pub IsBroker : Option ServiceBroker × Option Error → String → String → Type 0
IsBroker (some b, none) guid url = (b.guid ≡ guid) × (b.broker_url ≡ url)
IsBroker _ guid url = ⊥

module _ (env : Env) (h : BrokerHandler) where
  -- The last look-up by name found a broker with this GUID and this URL.
  abbrev pub LastFound : String → String → Log → Type 0
  LastFound guid url [] = ⊥
  LastFound guid url (get_broker_by_name name ∷ s) =
      IsBroker (env.get_broker_by_name s name) guid url
  LastFound guid url (c ∷ s) = LastFound guid url s

  abbrev pub OwnCall : Call → Log → Type 0
  OwnCall (delete_broker r) s = LastFound r.guid (h.sm_path <> ("/" <> r.id)) s
  OwnCall (update_broker r) s = LastFound r.guid (h.sm_path <> ("/" <> r.id)) s
  OwnCall (fetch r) s = LastFound r.guid (h.sm_path <> ("/" <> r.id)) s
  OwnCall (create_broker r) s = ⊥
  OwnCall _ s = Unit

  -- Every update, refetch and deletion in the log is of a broker that was just found at the proxy's
  -- URL for its id, and nothing was created.
  abbrev pub AreOwn : Log → Type 0
  AreOwn [] = Unit
  AreOwn (c ∷ s) = OwnCall c s × AreOwn s

  abbrev IsFound : SmBroker → ServiceBroker → Log → Type 0
  IsFound b x s = LastFound x.guid (h.sm_path <> ("/" <> b.id)) s

  found :
      (b : SmBroker) (x : ServiceBroker) (name : String) (s : Log)
      → env.get_broker_by_name s name ≡ (some x, none)
      → x.broker_url == broker_proxy_path h b ≡ true
      → IsFound b x (get_broker_by_name name ∷ s)
  found b x name s i e = rw i (refl, (eq_iff x.broker_url (broker_proxy_path h b)).0 e)

  delete_call-AreOwn :
      (b : SmBroker) (x : ServiceBroker) (s : Log)
      → IsFound b x s
      → AreOwn s
      → x.broker_url == broker_proxy_path h b ≡ true
      → AreOwn (delete_existing env h b x s).1
  unfolding delete_existing ◌>>=◌
  delete_call-AreOwn b x s f p e = rw e (ground arith)

  not_own :
      (b : SmBroker) (x : ServiceBroker) (s : Log)
      → AreOwn s
      → x.broker_url == broker_proxy_path h b ≡ false
      → AreOwn (delete_existing env h b x s).1
  unfolding delete_existing ◌>>=◌
  not_own b x s p n = rw n p

  delete_found :
      (b : SmBroker) (name : String) (answer : Option ServiceBroker × Option Error) (s : Log)
      → env.get_broker_by_name s name ≡ answer
      → AreOwn s
      → AreOwn ((found_broker answer >>= delete_existing env h b) (get_broker_by_name name ∷ s)).1
  unfolding found_broker ◌>>=◌
  delete_found b name (x, some e) s i p = (tt, p)
  delete_found b name (none, none) s i p = (tt, p)
  delete_found b name (some x, none) s i p =
      elim (Bool-cases (x.broker_url == broker_proxy_path h b)) [
        | inr n ↦ not_own b x _ (tt, p) n
        | inl e ↦ delete_call-AreOwn b x _ (found b x name s i e) (tt, p) e
      ]

  look_up_delete :
      (b : SmBroker) (name : String)
      → Keeps AreOwn (
          Clients.get_broker_by_name env name >>= λ answer.
          found_broker answer >>= λ existing. delete_existing env h b existing)
  unfolding Clients.get_broker_by_name ◌>>=◌
  look_up_delete b name = record { at = λ s p. delete_found b name _ s refl p }

  delete_for-AreOwn : (b : SmBroker) → Keeps AreOwn (delete_for env h b)
  unfolding delete_for
  delete_for-AreOwn b = search (keeps_rules, look_up_delete)

  -- The handler of a deletion keeps the invariant: the one broker that it deletes was found by
  -- name just before, has the GUID of the request, and its URL is the proxy's for the deleted id.
  pub on_delete-AreOwn :
      (unmarshal : String → Result BrokerPayload) (n : Notification)
      → Keeps AreOwn (on_delete env h unmarshal n)
  unfolding on_delete
  on_delete-AreOwn unmarshal n = search (keeps_rules, delete_for-AreOwn)

  abbrev Owned : SmBroker → ServiceBroker → Log → Type 0
  Owned b x s = IsFound b x s × AreOwn s

  login-Owned :
      (b : SmBroker) (x : ServiceBroker) (broker_id notification_id : String)
      → Keeps (Owned b x) (login env h broker_id notification_id)
  unfolding login ◌>>=◌
  login-Owned b x broker_id notification_id = record { at = λ s p. ground arith }

  register-Owned :
      (b : SmBroker) (x : ServiceBroker) (c : Option Credential) (force : Bool)
      → Keeps (Owned b x) (register env h c force)
  unfolding register ◌>>=◌
  register-Owned b x c force = record { at = λ s p. ground arith }

  fetch-Owned :
      (b : SmBroker) (x : ServiceBroker) (l : Login)
      → Keeps (Owned b x) (Clients.fetch env (update_request h b l x))
  unfolding Clients.fetch
  fetch-Owned b x l = Keeps-perform _ _ (λ s p. (p.0, (p.0, p.1)))

  reset-Owned :
      (b : SmBroker) (x : ServiceBroker) (old new : Option ServiceBroker)
      → Keeps (Owned b x) (reset_broker_cache env h old new)
  unfolding reset_broker_cache ◌>>=◌
  reset-Owned b x old new = record { at = λ s p. ground arith }

  activate-Owned :
      (b : SmBroker) (x : ServiceBroker) (c : Option Credential)
      → Keeps (Owned b x) (activate env h c)
  unfolding activate ◌>>=◌
  activate-Owned b x c = record { at = λ s p. ground arith }

  refetch-Owned :
      (b : SmBroker) (x : ServiceBroker) (l : Login) → Keeps (Owned b x) (refetch env h b l x)
  unfolding refetch
  refetch-Owned b x l =
      search (keeps_rules, register-Owned, fetch-Owned, reset-Owned, activate-Owned)

  rename-Owned :
      (b : SmBroker) (x : ServiceBroker) (l : Login) → Keeps (Owned b x) (rename env h b l x)
  unfolding rename ◌>>=◌
  rename-Owned b x l = record { at = λ s p. ground arith }

  update_own :
      (n : Notification) (before after : SmBroker) (x : ServiceBroker)
      → Keeps (Owned after x) (update_existing env h n before after x)
  unfolding update_existing
  update_own n before after x = search (keeps_rules, login-Owned, refetch-Owned, rename-Owned)

  update_call-AreOwn :
      (n : Notification) (before after : SmBroker) (x : ServiceBroker) (s : Log)
      → (x.broker_url == broker_proxy_path h after ≡ true → IsFound after x s)
      → AreOwn s
      → AreOwn (update_existing env h n before after x s).1
  unfolding update_existing
  update_call-AreOwn n before after x s f p =
      elim (Bool-cases (x.broker_url == broker_proxy_path h after)) [
        | inl e ↦ ((update_own n before after x).at s (f e, p)).1
        | inr e ↦ rw e ((Keeps-raise {P = AreOwn} not_taken_over).at s p)
      ]

  update_found :
      (n : Notification) (before after : SmBroker) (name : String)
      (answer : Option ServiceBroker × Option Error) (s : Log)
      → env.get_broker_by_name s name ≡ answer
      → AreOwn s
      → AreOwn
          ((found_broker answer >>= update_existing env h n before after)
            (get_broker_by_name name ∷ s)).1
  unfolding found_broker ◌>>=◌
  update_found n before after name (x, some e) s i p = (tt, p)
  update_found n before after name (none, none) s i p = (tt, p)
  update_found n before after name (some x, none) s i p =
      update_call-AreOwn n before after x _ (found after x name s i) (tt, p)

  look_up_update :
      (n : Notification) (before after : SmBroker) (name : String)
      → Keeps AreOwn (
          Clients.get_broker_by_name env name >>= λ answer.
          found_broker answer >>= λ existing. update_existing env h n before after existing)
  unfolding Clients.get_broker_by_name ◌>>=◌
  look_up_update n before after name = record {
    at = λ s p. update_found n before after name _ s refl p;
  }

  update_for-AreOwn :
      (n : Notification) (before after : SmBroker) → Keeps AreOwn (update_for env h n before after)
  unfolding update_for
  update_for-AreOwn n before after = search (keeps_rules, look_up_update)

  -- The handler of a change keeps the invariant: the one broker that it updates or refetches was
  -- found by name before, has the GUID of the request, and its URL is the proxy's for the changed id.
  pub on_update-AreOwn :
      (unmarshal : String → Result BrokerPayload) (n : Notification)
      → Keeps AreOwn (on_update env h unmarshal n)
  unfolding on_update
  on_update-AreOwn unmarshal n = search (keeps_rules, update_for-AreOwn)
