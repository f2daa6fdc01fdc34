-- ===== src/Handlers/Visibility/Plain.antt =====
-- Invariants of the log that plain calls keep, for the handlers of visibilities_handler.go.
use service_broker_proxy.Prelude.{String, Bool, false, Option, none, some}
use service_broker_proxy.Types.{Error, Notification, Labels, SmVisibility}
use service_broker_proxy.Exec.{Log, Result, ok, err, Exec}
use service_broker_proxy.Exec.Keeps.{Keeps, Keeps-bind, Keeps-attempt, Keeps-pure, keeps_rules}
use service_broker_proxy.Clients.{Env}
use service_broker_proxy.Clients.Plain.{KeepsPlain, plain_calls, enable_access_for_plan-Keeps}
use service_broker_proxy.Handlers.Visibility.{
  VisibilityAdditional, VisibilityPayload, VisibilityHandler, enable_service_access,
  disable_service_access,
}
use service_broker_proxy.Handlers.Visibility.Events.{
  resync_missing, resync_on, recover, enable_or_resync, create_for, on_create, move_plan,
  change_labels, update_for, on_update, delete_for, on_delete,
}

ruleset rules = (keeps_rules, plain_calls)

module _ {P : Log → Type 0} (plain : KeepsPlain P) (env : Env) (h : VisibilityHandler) where
  module _ (resync : Bool → Exec (Unit {0})) (keep : (b : Bool) → Keeps P (resync b)) where
    resync_on-Keeps :
        (e : Option Error) (name id : String) (labels : Labels)
        → Keeps P (resync_on env resync e name id labels)
    unfolding resync_on
    resync_on-Keeps none name id labels = Keeps-pure tt
    resync_on-Keeps (some e) name id labels =
        Keeps-bind _ _ (Keeps-attempt _ (keep false))
          (λ _. enable_access_for_plan-Keeps plain env _)

    recover-Keeps :
        (name id : String) (labels : Labels) (first : Result (Unit {0}))
        → Keeps P (recover env resync name id labels first)
    unfolding recover resync_missing
    recover-Keeps name id labels (ok u) = Keeps-pure tt
    recover-Keeps name id labels (err e) = search (rules, resync_on-Keeps)

    enable_or_resync-Keeps :
        (name id : String) (labels : Labels) → Keeps P (enable_or_resync env resync name id labels)
    unfolding enable_or_resync
    enable_or_resync-Keeps name id labels =
        Keeps-bind _ _ (Keeps-attempt _ (enable_access_for_plan-Keeps plain env _))
          (recover-Keeps name id labels)

    pub create_visibility-Keeps :
        (unmarshal : String → Result VisibilityPayload) (n : Notification)
        → Keeps P (on_create env resync h unmarshal n)
    unfolding on_create create_for
    create_visibility-Keeps unmarshal n = search (rules, enable_or_resync-Keeps)

  change_labels-Keeps :
      (name : String) (new : VisibilityAdditional) (after : SmVisibility) (labels : Labels × Labels)
      → Keeps P (change_labels env h name new after labels)
  unfolding change_labels enable_service_access disable_service_access
  change_labels-Keeps name new after labels =
      Keeps-bind _ _ (Keeps-attempt _ (search rules))
        (λ _. Keeps-bind _ _ (Keeps-attempt _ (search rules)) (λ _. Keeps-pure tt))

  pub update_visibility-Keeps :
      (unmarshal : String → Result VisibilityPayload) (n : Notification)
      → Keeps P (on_update env h unmarshal n)
  unfolding on_update update_for move_plan
  update_visibility-Keeps unmarshal n = search (rules, change_labels-Keeps) depth 9

  pub delete_visibility-Keeps :
      (unmarshal : String → Result VisibilityPayload) (n : Notification)
      → Keeps P (on_delete env h unmarshal n)
  unfolding on_delete delete_for
  delete_visibility-Keeps unmarshal n = search rules depth 9
