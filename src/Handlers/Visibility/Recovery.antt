-- ===== src/Handlers/Visibility/Recovery.antt =====
-- When OnCreate of a visibility runs a resync.
use service_broker_proxy.Prelude.{
  String, ◌≡◌, refl, ap, Bool, true, false, ◌⊎◌, inl, inr, Option, none, some, ◌∷◌, if◌then◌else◌,
}
use service_broker_proxy.Types.{
  no_visibility_client, blacklisted, Labels, Notification, created, Error, SmVisibility,
  ModifyPlanAccessRequest,
}
use service_broker_proxy.Exec.{Log, Result, ok, err, Exec, raise, lift, deref, ◌>>=◌}
use service_broker_proxy.Exec.Calls.{Call, enable_access_for_plan}
use service_broker_proxy.Clients
use service_broker_proxy.Clients.{Env, get_broker_by_name}
use service_broker_proxy.Handlers.Visibility.{
  VisibilityPayload, VisibilityHandler, unmarshal_payload, platform_broker_name, access_request,
}
use service_broker_proxy.Handlers.Visibility.Events.{
  resync_on, resync_missing, recover, enable_or_resync, create_for, on_create,
}

module _ (env : Env) (found : (s : Log) (name : String) → (env.get_broker_by_name s name).1 ≡ none)
    (resync resync' : Bool → Exec (Unit {0})) where
  resync_missing_same :
      (name catalog_id : String) (labels : Labels) (s : Log)
      → resync_missing env resync name catalog_id labels s
        ≡ resync_missing env resync' name catalog_id labels s
  unfolding resync_missing resync_on get_broker_by_name ◌>>=◌
  resync_missing_same name catalog_id labels s = rw (found s name) refl

  recover_same :
      (name catalog_id : String) (labels : Labels) (r : Result (Unit {0})) (s : Log)
      → recover env resync name catalog_id labels r s
        ≡ recover env resync' name catalog_id labels r s
  unfolding recover
  recover_same name catalog_id labels (ok u) s = refl
  recover_same name catalog_id labels (err e) s = resync_missing_same name catalog_id labels s

  enable_same : enable_or_resync env resync ≡ enable_or_resync env resync'
  unfolding enable_or_resync ◌>>=◌ Clients.enable_access_for_plan
  enable_same = λ i name catalog_id labels s.
      recover_same name catalog_id labels
        (env.enable_access_for_plan s (access_request name catalog_id labels))
        (enable_access_for_plan (access_request name catalog_id labels) ∷ s) i

  -- If looking up a broker never fails, the handler of a created visibility runs no resync: it does the
  -- same whatever the resyncer would do.
  pub on_create_without_resync :
      (h : VisibilityHandler) (unmarshal : String → Result VisibilityPayload) (n : Notification)
      → on_create env resync h unmarshal n ≡ on_create env resync' h unmarshal n
  unfolding on_create create_for
  on_create_without_resync h unmarshal n =
      ap
        (λ enable.
          if h.has_client
          then (do
            payload ← lift (unmarshal_payload unmarshal created n.payload)
            v ← deref payload.new_details.resource
            (if env.strings_any_equals h.broker_blacklist payload.new_details.additional.broker_name
                then raise blacklisted
                else enable (platform_broker_name h payload.new_details.additional)
                    payload.new_details.additional.catalog_id v.labels))
          else raise no_visibility_client)
        enable_same

-- The calls of `enable_or_resync`, by the answers of the platform.
module _ (env : Env) (resync : Bool → Exec (Unit {0})) (q : ModifyPlanAccessRequest) (s : Log) where
  abbrev enabled : Log
  enabled = Call.enable_access_for_plan q ∷ s

  abbrev looked_up : Log
  looked_up = Call.get_broker_by_name q.broker_name ∷ enabled

  -- What the resync leaves, whatever its result.
  abbrev resynced : Log
  resynced = (resync false looked_up).1

  abbrev pub Recovers : Result (Unit {0}) × Log → Type 0
  Recovers x =
      ((env.enable_access_for_plan s q ≡ ok tt) × (x ≡ (ok tt, enabled)))
      ⊎ ((e : Error) × (env.enable_access_for_plan s q ≡ err e)
          × (((env.get_broker_by_name enabled q.broker_name).1 ≡ none) × (x ≡ (ok tt, looked_up))
              ⊎ ((e' : Error) × ((env.get_broker_by_name enabled q.broker_name).1 ≡ some e')
                  × (x ≡ (
                    env.enable_access_for_plan resynced q,
                    Call.enable_access_for_plan q ∷ resynced,
                  )))))

module _ (env : Env) (resync : Bool → Exec (Unit {0})) where
  second_attempt :
      (name catalog_id : String) (labels : Labels) (s : Log) (e : Error) (found : Option Error)
      → env.enable_access_for_plan s (access_request name catalog_id labels) ≡ err e
      → (env.get_broker_by_name
          (enabled env resync (access_request name catalog_id labels) s)
          name).1
        ≡ found
      → Recovers env resync
          (access_request name catalog_id labels)
          s
          (enable_or_resync env resync name catalog_id labels s)
  unfolding enable_or_resync recover resync_missing resync_on get_broker_by_name ◌>>=◌
      Clients.enable_access_for_plan
  second_attempt name catalog_id labels s e none fails f =
      inr (e, fails, inl (f, rw (fails, f) refl))
  second_attempt name catalog_id labels s e (some e') fails f =
      inr (e, fails, inr (e', f, rw (fails, f) refl))

  first_attempt :
      (name catalog_id : String) (labels : Labels) (s : Log) (first : Result (Unit {0}))
      → env.enable_access_for_plan s (access_request name catalog_id labels) ≡ first
      → Recovers env resync
          (access_request name catalog_id labels)
          s
          (enable_or_resync env resync name catalog_id labels s)
  unfolding enable_or_resync recover ◌>>=◌ Clients.enable_access_for_plan
  first_attempt name catalog_id labels s (ok tt) f = inl (f, rw f refl)
  first_attempt name catalog_id labels s (err e) f =
      second_attempt name catalog_id labels s e _ f refl

  -- If the platform's client handles visibilities, the payload of a created visibility is valid and
  -- its broker is not blacklisted: OnCreate enables the access once and does nothing else if that
  -- succeeds; if it fails OnCreate looks up the broker, and does no more if that gives no error,
  -- and otherwise runs a resync without visibilities and then, whatever the resync did, enables the
  -- access once more.
  pub on_create-Recovers :
      (h : VisibilityHandler) (unmarshal : String → Result VisibilityPayload) (n : Notification)
      (p : VisibilityPayload) (v : SmVisibility) (s : Log)
      → h.has_client ≡ true
      → unmarshal_payload unmarshal created n.payload ≡ ok p
      → p.new_details.resource ≡ some v
      → env.strings_any_equals h.broker_blacklist p.new_details.additional.broker_name ≡ false
      → Recovers env resync
          (access_request
            (platform_broker_name h p.new_details.additional)
            p.new_details.additional.catalog_id
            v.labels)
          s
          (on_create env resync h unmarshal n s)
  unfolding on_create create_for ◌>>=◌
  on_create-Recovers h unmarshal n p v s client valid resource listed =
      rw (client, valid, resource, listed) (first_attempt _ _ v.labels s _ refl)
