-- ===== src/Notifications/Producer/Loop.antt =====
-- run and readNotifications of producer.go: what the producer signals over its connections.
use service_broker_proxy.Prelude.{Bool, List, [], ◌∷◌, ◌++◌, if◌then◌else◌}
use service_broker_proxy.Prelude.Int.{ℤ}
use service_broker_proxy.Types.{last_notification_gone, Notification}
use service_broker_proxy.Exec.{Result, ok, err}
use service_broker_proxy.Notifications.Producer.{Producer, Attempt, has_invalid_revision, connect}

-- One round of readNotifications: a notification that was queued, or any of the events that end the
-- reader (an error of the connection, a malformed message, the context).
pub data Read : Type 0 where
  received : Notification → Read
  stopped : Read

-- What the rest of the proxy sees: a value on resyncChan, which scheduleResync turns into a resync
-- message, and a message with a notification.
pub data Signal : Type 0 where
  resync_signal : Signal
  notification_message : Notification → Signal

-- readNotifications
unfoldable pub read_notifications : List Read → Producer → List Signal × Producer
read_notifications [] p = ([], p)
read_notifications (stopped ∷ reads) p = ([], p)
read_notifications (received n ∷ reads) p =
    let (out, p') =
      read_notifications reads (record p { last_notification_revision = n.revision }) in
    (notification_message n ∷ out, p')

module _ (invalid_revision : ℤ) where
  -- After connect returned nil; `need_resync` was read before it.
  unfoldable pub session : Bool → List Read → Producer → List Signal × Producer
  unfolding read_notifications
  session need_resync reads p =
      let (out, p') = read_notifications reads p in
      (if need_resync then resync_signal ∷ out else out, p')

  unfoldable pub after_connect :
      Bool → List Read → Result (Unit {0}) → Producer → List Signal × Producer
  unfolding session
  after_connect need_resync reads (ok u) p = session need_resync reads p
  after_connect need_resync reads (err last_notification_gone) p =
      ([], record p { last_notification_revision = invalid_revision })
  after_connect need_resync reads (err e) p = ([], p)

  -- One round of the loop of run.
  unfoldable pub round : Attempt → List Read → Producer → List Signal × Producer
  unfolding connect after_connect
  round a reads p =
      let (r, p') = connect invalid_revision a p in
      after_connect (has_invalid_revision invalid_revision p) reads r p'

  unfoldable pub rounds : List (Attempt × List Read) → Producer → List Signal × Producer
  rounds [] p = ([], p)
  rounds ((a, reads) ∷ rest) p =
      let (out, p') = round a reads p in let (out', p'') = rounds rest p' in (out ++ out', p'')

  -- run: it starts from the invalid revision.
  unfoldable pub run : List (Attempt × List Read) → Producer → List Signal × Producer
  run attempts p = rounds attempts (record p { last_notification_revision = invalid_revision })
