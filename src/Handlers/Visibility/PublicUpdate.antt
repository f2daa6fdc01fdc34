-- ===== src/Handlers/Visibility/PublicUpdate.antt =====
-- OnUpdate of visibilities_handler.go for a visibility without a platform and without label changes.
use service_broker_proxy.Prelude.{String, ◌≡◌, refl, true, false, some, [], ◌∷◌, eq_refl}
use service_broker_proxy.Types.{Notification, modified, SmVisibility}
use service_broker_proxy.Exec.{Log, Result, ok, ◌>>=◌}
use service_broker_proxy.Exec.Calls.{enable_access_for_plan, disable_access_for_plan}
use service_broker_proxy.Clients
use service_broker_proxy.Clients.{Env}
use service_broker_proxy.Utils.{label_changes_to_labels}
use service_broker_proxy.Handlers.Visibility.{
  VisibilityPayload, VisibilityHandler, unmarshal_payload, access_request, platform_broker_name,
  needs_access_change, enable_service_access, disable_service_access,
}
use service_broker_proxy.Handlers.Visibility.Events.{
  move_plan, change_labels, update_for, on_update,
}

module _ (env : Env) (h : VisibilityHandler) where
  change_labels-public :
      (name : String) (p : VisibilityPayload) (after : SmVisibility) (s : Log)
      → after.platform_id ≡ ""
      → change_labels env h name p.new_details.additional after (label_changes_to_labels []) s ≡ (
        ok tt,
        disable_access_for_plan (access_request name p.new_details.additional.catalog_id [])
            ∷ enable_access_for_plan (access_request name p.new_details.additional.catalog_id [])
            ∷ s,
      )
  unfolding change_labels label_changes_to_labels enable_service_access disable_service_access
      needs_access_change ◌>>=◌ Clients.enable_access_for_plan Clients.disable_access_for_plan
  change_labels-public name p after s e = rw e refl

  update_for-public :
      (p : VisibilityPayload) (before after : SmVisibility) (s : Log)
      → env.strings_any_equals h.broker_blacklist p.old_details.additional.broker_name ≡ false
      → p.old_details.additional.catalog_id ≡ p.new_details.additional.catalog_id
      → after.platform_id ≡ ""
      → p.label_changes ≡ []
      → let request =
          access_request
            (platform_broker_name h p.old_details.additional)
            p.new_details.additional.catalog_id
            [] in
        update_for env h p before after s
        ≡ (ok tt, disable_access_for_plan request ∷ enable_access_for_plan request ∷ s)
  unfolding update_for move_plan ◌>>=◌
  update_for-public p before after s l i e k =
      rw (l, i, eq_refl p.new_details.additional.catalog_id, k)
        (change_labels-public (platform_broker_name h p.old_details.additional) p after s e)

  -- A change of a visibility that has no platform, with the catalog plan unchanged and no label changes,
  -- for a broker that is not blacklisted: the access for everyone is enabled, and then disabled again.
  pub public_access_lost :
      (unmarshal : String → Result VisibilityPayload) (n : Notification) (p : VisibilityPayload)
      (before after : SmVisibility) (s : Log)
      → h.has_client ≡ true
      → unmarshal_payload unmarshal modified n.payload ≡ ok p
      → p.old_details.resource ≡ some before
      → p.new_details.resource ≡ some after
      → env.strings_any_equals h.broker_blacklist p.old_details.additional.broker_name ≡ false
      → p.old_details.additional.catalog_id ≡ p.new_details.additional.catalog_id
      → after.platform_id ≡ ""
      → p.label_changes ≡ []
      → let request =
          access_request
            (platform_broker_name h p.old_details.additional)
            p.new_details.additional.catalog_id
            [] in
        on_update env h unmarshal n s
        ≡ (ok tt, disable_access_for_plan request ∷ enable_access_for_plan request ∷ s)
  unfolding on_update ◌>>=◌
  public_access_lost unmarshal n p before after s c u b a l i e k =
      simp (c, u, b, a) (update_for-public p before after s l i e k)
