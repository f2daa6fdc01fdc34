-- ===== src/Handlers/Visibility/Events.antt =====
-- OnCreate, OnUpdate and OnDelete of VisibilityResourceNotificationsHandler. The resyncer is the
-- argument `resync`.
use service_broker_proxy.Prelude.{String, Bool, false, Option, none, some, ◌==◌, if◌then◌else◌}
use service_broker_proxy.Types.{
  Error, no_visibility_client, blacklisted, Labels, SmVisibility, Notification, created, modified,
  deleted,
}
use service_broker_proxy.Exec.{
  Result, ok, err, Exec, pure, raise, lift, deref, attempt, ◌>>=◌, ◌>>◌,
}
use service_broker_proxy.Clients.{
  Env, get_broker_by_name, enable_access_for_plan, disable_access_for_plan,
}
use service_broker_proxy.Utils.{label_changes_to_labels}
use service_broker_proxy.Handlers.Visibility.{
  VisibilityAdditional, VisibilityPayload, unmarshal_payload, VisibilityHandler,
  platform_broker_name, access_request, enable_service_access, disable_service_access,
}

module _ (env : Env) (resync : Bool → Exec (Unit {0})) where
  -- Resync returns nothing: the access is enabled again whatever it did.
  unfoldable pub resync_on : Option Error → String → String → Labels → Exec (Unit {0})
  resync_on none name catalog_id labels = pure tt
  resync_on (some e) name catalog_id labels = do
    attempt (resync false)
    enable_access_for_plan env (access_request name catalog_id labels)

  -- OnCreate, after the first attempt to enable the access failed
  unfoldable pub resync_missing : String → String → Labels → Exec (Unit {0})
  resync_missing name catalog_id labels = do
    found ← get_broker_by_name env name
    resync_on found.1 name catalog_id labels

  unfoldable pub recover : String → String → Labels → Result (Unit {0}) → Exec (Unit {0})
  recover name catalog_id labels (ok u) = pure tt
  recover name catalog_id labels (err e) = resync_missing name catalog_id labels

  unfoldable pub enable_or_resync : String → String → Labels → Exec (Unit {0})
  enable_or_resync name catalog_id labels = do
    first ← attempt (enable_access_for_plan env (access_request name catalog_id labels))
    recover name catalog_id labels first

module _ (env : Env) (resync : Bool → Exec (Unit {0})) (h : VisibilityHandler) where
  unfoldable pub create_for : VisibilityAdditional → SmVisibility → Exec (Unit {0})
  create_for a v =
      if env.strings_any_equals h.broker_blacklist a.broker_name
      then raise blacklisted
      else enable_or_resync env resync (platform_broker_name h a) a.catalog_id v.labels

  -- OnCreate
  unfoldable pub on_create : (String → Result VisibilityPayload) → Notification → Exec (Unit {0})
  on_create unmarshal n =
      if h.has_client
      then (do
        payload ← lift (unmarshal_payload unmarshal created n.payload)
        v ← deref payload.new_details.resource
        create_for payload.new_details.additional v)
      else raise no_visibility_client

module _ (env : Env) (h : VisibilityHandler) where
  -- OnUpdate, the catalog plan was changed: an error here ends the handler
  unfoldable pub move_plan :
      String
      → VisibilityAdditional
      → VisibilityAdditional
      → SmVisibility
      → SmVisibility
      → Exec (Unit {0})
  move_plan name old new before after = if old.catalog_id == new.catalog_id then pure tt else (do
    disable_access_for_plan env (access_request name old.catalog_id before.labels)
    enable_access_for_plan env (access_request name new.catalog_id after.labels))

  -- OnUpdate, the label changes: errors here are only logged
  unfoldable pub change_labels :
      String → VisibilityAdditional → SmVisibility → Labels × Labels → Exec (Unit {0})
  change_labels name new after labels = do
    attempt (enable_service_access env labels.0 after new.catalog_id name)
    attempt (disable_service_access env labels.1 after new.catalog_id name)
    pure tt

  unfoldable pub update_for : VisibilityPayload → SmVisibility → SmVisibility → Exec (Unit {0})
  update_for p before after =
      let old = p.old_details.additional in
      let new = p.new_details.additional in
      if env.strings_any_equals h.broker_blacklist old.broker_name then raise blacklisted else (do
        move_plan (platform_broker_name h old) old new before after
        change_labels (platform_broker_name h old) new after
            (label_changes_to_labels p.label_changes))

  -- OnUpdate
  unfoldable pub on_update : (String → Result VisibilityPayload) → Notification → Exec (Unit {0})
  on_update unmarshal n =
      if h.has_client
      then (do
        payload ← lift (unmarshal_payload unmarshal modified n.payload)
        before ← deref payload.old_details.resource
        after ← deref payload.new_details.resource
        update_for payload before after)
      else raise no_visibility_client

  unfoldable pub delete_for : VisibilityAdditional → SmVisibility → Exec (Unit {0})
  delete_for a v =
      if env.strings_any_equals h.broker_blacklist a.broker_name
      then raise blacklisted
      else disable_access_for_plan env
          (access_request (platform_broker_name h a) a.catalog_id v.labels)

  -- OnDelete
  unfoldable pub on_delete : (String → Result VisibilityPayload) → Notification → Exec (Unit {0})
  on_delete unmarshal n =
      if h.has_client
      then (do
        payload ← lift (unmarshal_payload unmarshal deleted n.payload)
        v ← deref payload.old_details.resource
        delete_for payload.old_details.additional v)
      else raise no_visibility_client
