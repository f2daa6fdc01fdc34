-- ===== src/Examples/Runs.antt =====
-- The theorems on the handlers, the whole proxy and the notifications, applied to the sample inputs.
use service_broker_proxy.Prelude.{◌≡◌, refl, true, false, some, none, List, [], ◌∷◌, ◌++◌, arith}
use service_broker_proxy.Prelude.Int.{pos, negsuc}
use service_broker_proxy.Types.{failed, modified, LabelChange, add_label, remove_label}
use service_broker_proxy.Exec.{ok, err}
use service_broker_proxy.Exec.Keeps.{Keeps}
use service_broker_proxy.Clients.Confirmed.{IsConfirmed}
use service_broker_proxy.Handlers.Broker.Update.{on_update}
use service_broker_proxy.Handlers.Broker.Delete.{on_delete}
use service_broker_proxy.Handlers.Broker.Ownership.{AreOwn, on_update-AreOwn, on_delete-AreOwn}
use service_broker_proxy.Handlers.Payload.{
  unmarshal_payload, validate_payload, validate_details, validate_resource,
}
use service_broker_proxy.Handlers.Payload.Validity.{HasResources, unmarshal_payload-HasResources}
use service_broker_proxy.Notifications.Producer.{accepted, refused}
use service_broker_proxy.Notifications.Producer.Loop.{received, stopped, notification_message, run}
use service_broker_proxy.Notifications.Producer.Resync.{
  StartsWithResync, run-StartsWithResync, resync_lost,
}
use service_broker_proxy.Prelude.{map}
use service_broker_proxy.Reconcile.Reconciler.{
  State, resync_message, change, here, next, start, send, take_resync, drain_one, finish_drain,
  waiting, Reach, resync_taken, dropped, resynced, consumed, take_change,
}
use service_broker_proxy.Reconcile.Reconciler.Delivery.{
  protocol, is_draining, consumed_in, sent_consumed, drops_resynced,
}
use service_broker_proxy.Handlers.Broker.Create
use service_broker_proxy.Handlers.Broker.Takeover.{AreCreations, on_create-AreCreations}
use service_broker_proxy.Handlers.Visibility.{VisibilityPayload}
use service_broker_proxy.Handlers.Visibility
use service_broker_proxy.Handlers.Visibility.Events
use service_broker_proxy.Handlers.Visibility.Recovery.{Recovers, on_create-Recovers}
use service_broker_proxy.Clients.{Env}
use service_broker_proxy.Reconcile.Resyncer.{resync}
use service_broker_proxy.Sbproxy.{resync_job}
use service_broker_proxy.Prelude.{none}
use service_broker_proxy.Handlers.Visibility.PublicUpdate.{public_access_lost}
use service_broker_proxy.Exec.Calls.{enable_access_for_plan, disable_access_for_plan}
use service_broker_proxy.Types.{ModifyPlanAccessRequest}
use service_broker_proxy.Utils.{broker_proxy_name}
use service_broker_proxy.Notifications.Producer.{read_response_headers}
use service_broker_proxy.Notifications.Producer.Periods.{read_response_headers-periods}
use service_broker_proxy.Prelude.Int.{ℤ_ltb}
use service_broker_proxy.Sbproxy.{visibility_handler}
use service_broker_proxy.Examples.{sm_broker, sm_visibility}
use service_broker_proxy.Utils.{values_of, label_changes_to_labels}
use service_broker_proxy.Utils.LabelChanges.{collected, label_changes_to_labels-collected}
use service_broker_proxy.Sbproxy.{process_messages, broker_handler}
use service_broker_proxy.Clients.Sparing.{IsSparing}
use service_broker_proxy.Sbproxy.Sparing.{IsProxy, MayUpdate, process_messages-IsSparing}
use service_broker_proxy.Sbproxy.Confirmed.{process_messages-IsConfirmed}
use service_broker_proxy.Examples.{
  producer, good, sample_env, libraries, settings, client, notification, broker_payload,
}

process_messages-IsConfirmed_example : IsConfirmed sample_env (
    process_messages sample_env libraries settings client
      (resync_message ∷ change notification ∷ [])
      [])
process_messages-IsConfirmed_example =
    process_messages-IsConfirmed sample_env libraries settings client
      (resync_message ∷ change notification ∷ []) [] tt

on_update-AreOwn_example :
    Keeps
      (AreOwn sample_env (broker_handler settings client))
      (on_update sample_env (broker_handler settings client) libraries.broker_payload notification)
on_update-AreOwn_example =
    on_update-AreOwn sample_env (broker_handler settings client) libraries.broker_payload
      notification

on_delete-AreOwn_example :
    Keeps
      (AreOwn sample_env (broker_handler settings client))
      (on_delete sample_env (broker_handler settings client) libraries.broker_payload notification)
on_delete-AreOwn_example =
    on_delete-AreOwn sample_env (broker_handler settings client) libraries.broker_payload
      notification

unmarshal_payload-HasResources_example : HasResources modified broker_payload
unfolding unmarshal_payload validate_payload validate_details validate_resource
unmarshal_payload-HasResources_example =
    unmarshal_payload-HasResources libraries.broker_payload modified "{}" {p = broker_payload} refl

abbrev label_changes : List LabelChange
label_changes =
    record { operation = add_label; key = "org"; change_values = "a" ∷ [] }
    ∷ record { operation = remove_label; key = "org"; change_values = "b" ∷ [] }
    ∷ record { operation = add_label; key = "org"; change_values = "c" ∷ [] }
    ∷ []

label_changes_to_labels-collected_example :
    (values_of "org" (label_changes_to_labels label_changes).0 ≡ collected true "org" label_changes)
    × (values_of "org" (label_changes_to_labels label_changes).1
        ≡ collected false "org" label_changes)
label_changes_to_labels-collected_example = label_changes_to_labels-collected "org" label_changes

run-StartsWithResync_example :
    StartsWithResync
      (run
        (negsuc 0)
        ((refused none, []) ∷ (accepted (good (pos 6)), received notification ∷ stopped ∷ []) ∷ [])
        producer).0
run-StartsWithResync_example =
    run-StartsWithResync (negsuc 0) producer
      ((refused none, []) ∷ (accepted (good (pos 6)), received notification ∷ stopped ∷ []) ∷ [])
      (refl, tt)

resync_lost_example :
    (run
      (negsuc 0)
      ((
        accepted (record {
          last_known_revision = some (ok (pos 6));
          max_ping_period = err (failed "no period");
        }),
        [],
      )
        ∷ (accepted (good (pos 6)), received notification ∷ [])
        ∷ [])
      producer).0
    ≡ notification_message notification ∷ []
resync_lost_example =
    resync_lost (negsuc 0) producer (pos 6) (failed "no period") [] (received notification ∷ [])
      (good (pos 6)) refl refl refl

-- The resync message, behind it a notification, which the drain drops, and then another one.
abbrev handled_state : State
handled_state = record {
  mode = waiting;
  queue = change notification ∷ [];
  closed = false;
  cancelled = false;
  sent = resync_message ∷ change notification ∷ change notification ∷ [];
  handled = resync_taken ∷ dropped (change notification) ∷ resynced ∷ [];
}

handled_state-Reach : Reach 8 start handled_state
handled_state-Reach =
    next
      (next
        (next
          (next
            (next (next here (send resync_message refl (ground arith)))
              (send (change notification) refl (ground arith)))
            (take_resync (change notification ∷ []) refl refl))
          (drain_one (change notification) [] refl refl))
        (finish_drain refl refl))
      (send (change notification) refl (ground arith))

-- Of two notifications one is consumed.
abbrev consuming_state : State
consuming_state = record start {
  queue = change notification ∷ [];
  sent = change notification ∷ (change notification ∷ []);
  handled = consumed notification ∷ [];
}

consuming_state-Reach : Reach 8 start consuming_state
consuming_state-Reach =
    next
      (next (next here (send (change notification) refl (ground arith)))
        (send (change notification) refl (ground arith)))
      (take_change notification (change notification ∷ []) refl refl)

sent_consumed_example :
    consuming_state.sent ≡ map change (consumed_in consuming_state.handled) ++ consuming_state.queue
sent_consumed_example = sent_consumed 8 consuming_state consuming_state-Reach (tt, (tt, tt))

drops_resynced_example : protocol handled_state.handled ≡ some (is_draining handled_state.mode)
drops_resynced_example = drops_resynced 8 handled_state handled_state-Reach

on_create-AreCreations_example :
    Keeps (AreCreations sample_env (broker_handler settings client) sm_broker) (
      Create.on_create sample_env
        (broker_handler settings client)
        libraries.broker_payload
        notification)
unfolding unmarshal_payload validate_payload validate_details validate_resource
on_create-AreCreations_example =
    on_create-AreCreations sample_env (broker_handler settings client) sm_broker
      libraries.broker_payload notification broker_payload refl refl

abbrev visibility_payload : VisibilityPayload
visibility_payload = record {
  new_details = record {
    resource = some sm_visibility;
    additional = record {
      broker_id = "b1";
      broker_name = "db";
      catalog_id = "small";
      is_valid = ok tt;
    };
  };
  old_details = record {
    resource = none;
    additional = record { broker_id = ""; broker_name = ""; catalog_id = ""; is_valid = ok tt };
  };
  label_changes = [];
}

read_response_headers-periods_example :
    ℤ_ltb
      (read_response_headers (negsuc 0) (good (pos 6)) producer).1.ping_period
      (read_response_headers (negsuc 0) (good (pos 6)) producer).1.read_timeout
    ≡ true
unfolding read_response_headers
read_response_headers-periods_example =
    read_response_headers-periods (negsuc 0) producer (good (pos 6)) 30_000_000_000 60 1_999_999_999
      refl refl refl (ground arith) (ground arith) (ground arith) (ground arith) refl

process_messages-IsSparing_example :
    IsSparing sample_env (IsProxy settings client) (MayUpdate settings client) (
      process_messages sample_env libraries settings client
        (resync_message ∷ change notification ∷ [])
        [])
process_messages-IsSparing_example =
    process_messages-IsSparing sample_env libraries settings client
      (resync_message ∷ change notification ∷ []) [] tt

abbrev public_update : VisibilityPayload
public_update = record {
  new_details = visibility_payload.new_details;
  old_details = visibility_payload.new_details;
  label_changes = [];
}

abbrev public_request : ModifyPlanAccessRequest
public_request = record { broker_name = "sm-db-b1"; catalog_plan_id = "small"; labels = [] }

public_access_lost_example :
    Events.on_update sample_env
      (visibility_handler settings client)
      (λ text. ok public_update)
      notification
      []
    ≡ (ok tt, disable_access_for_plan public_request ∷ enable_access_for_plan public_request ∷ [])
unfolding Visibility.unmarshal_payload broker_proxy_name
public_access_lost_example =
    public_access_lost sample_env (visibility_handler settings client) (λ text. ok public_update)
      notification public_update sm_visibility sm_visibility [] refl refl refl refl refl refl refl
      refl

-- A platform without the broker, and a Service Manager that does not list its brokers.
abbrev refusing_env : Env
refusing_env = record sample_env {
  enable_access_for_plan = λ s q. err (failed "no such broker");
  get_broker_by_name = λ s name. (none, some (failed "no such broker"));
  get_sm_brokers = λ s. err (failed "unreachable");
}

on_create-Recovers_example :
    Recovers refusing_env (resync refusing_env (resync_job settings client)) public_request [] (
      Events.on_create refusing_env
        (resync refusing_env (resync_job settings client))
        (visibility_handler settings client)
        (λ text. ok visibility_payload)
        notification
        [])
unfolding Visibility.unmarshal_payload broker_proxy_name
on_create-Recovers_example =
    on_create-Recovers refusing_env (resync refusing_env (resync_job settings client))
      (visibility_handler settings client) (λ text. ok visibility_payload) notification
      visibility_payload sm_visibility [] refl refl refl refl
