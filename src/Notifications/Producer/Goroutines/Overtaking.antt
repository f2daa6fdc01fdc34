-- ===== src/Notifications/Producer/Goroutines/Overtaking.antt =====
-- The order of resync messages and notifications in the messages channel.
use service_broker_proxy.Prelude.{ℕ, ◌≡◌, ◌<◌, refl, [], ◌∷◌, arith}
use service_broker_proxy.Prelude.Int.{ℤ, ℤ_eq_refl}
use service_broker_proxy.Types.{Notification}
use service_broker_proxy.Exec.{ok}
use service_broker_proxy.Reconcile.Reconciler.{resync_message, change}
use service_broker_proxy.Notifications.Producer.{Producer, Attempt, connect}
use service_broker_proxy.Notifications.Producer.Goroutines.{
  State, start, connected_anew, signal, send_resync, read, send_notification, Reach, here, next,
}

module _ (invalid_revision : ℤ) (capacity : ℕ) where
  -- After the first connection of a run, a notification can get into the messages channel before
  -- the resync message: run has handed the resync over to scheduleResync, but that goroutine sends
  -- its message while the reader of the new connection already sends notifications.
  pub notification_first :
      (p : Producer) (a : Attempt) (n : Notification) {q : Producer}
      → 1 < capacity
      → connect invalid_revision a (start invalid_revision p).producer ≡ (ok tt, q)
      → (s : State) × Reach invalid_revision capacity (start invalid_revision p) s
        × (s.messages ≡ change n ∷ resync_message ∷ [])
  notification_first p a n c e = (
    _,
    next
        (next
          (next
            (next (next here (connected_anew a refl e (ℤ_eq_refl invalid_revision)))
              (signal refl refl))
            (read n refl))
          (send_notification refl (omega arith)))
        (send_resync refl (omega arith)),
    refl,
  )
