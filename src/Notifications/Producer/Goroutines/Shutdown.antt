-- ===== src/Notifications/Producer/Goroutines/Shutdown.antt =====
-- run at the send on resyncChan when scheduleResync has returned.
use service_broker_proxy.Prelude.{ℕ, ◌≡◌, refl, true, arith}
use service_broker_proxy.Prelude.Int.{ℤ, ℤ_eq_refl}
use service_broker_proxy.Exec.{ok}
use service_broker_proxy.Notifications.Producer.{Producer, Attempt, connect}
use service_broker_proxy.Notifications.Producer.Goroutines.{
  signalling, stopped, State, start, Step, cancel, take, gone, not_connected, connected,
  connected_anew, signal, resync_period, send_resync, stop_timer, read, read_error,
  send_notification, stop_reader, ping_error, stop_ping, first_done, second_done, reconnect,
  stop_run, Reach, here, next,
}

abbrev pub IsStuck : State → Type 0
IsStuck s = (s.run ≡ signalling) × (s.timer ≡ stopped)

module _ (invalid_revision : ℤ) (capacity : ℕ) where
  Step-IsStuck : {s t : State} → Step invalid_revision capacity s t → IsStuck s → IsStuck t
  Step-IsStuck cancel v = v
  Step-IsStuck (take e) v = v
  Step-IsStuck (gone a r c) v = ground arith
  Step-IsStuck (not_connected a r c e) v = ground arith
  Step-IsStuck (connected a r c h) v = ground arith
  Step-IsStuck (connected_anew a r c h) v = ground arith
  Step-IsStuck (signal r e) v = ground arith
  Step-IsStuck (resync_period e) v = ground arith
  Step-IsStuck (send_resync e l) v = ground arith
  Step-IsStuck (stop_timer c e) v = ground arith
  Step-IsStuck (read n e) v = v
  Step-IsStuck (read_error e) v = v
  Step-IsStuck (send_notification e l) v = v
  Step-IsStuck (stop_reader e c) v = v
  Step-IsStuck (ping_error e) v = v
  Step-IsStuck (stop_ping e c) v = v
  Step-IsStuck (first_done r e) v = ground arith
  Step-IsStuck (second_done r e) v = ground arith
  Step-IsStuck (reconnect r) v = ground arith
  Step-IsStuck (stop_run r c) v = ground arith

  Reach-IsStuck : {s t : State} → Reach invalid_revision capacity s t → IsStuck s → IsStuck t
  Reach-IsStuck here v = v
  Reach-IsStuck (next p st) v = Step-IsStuck st (Reach-IsStuck p v)

  -- If the context is cancelled between the first successful connect and the send on resyncChan, then
  -- run may never return: a state can be reached in which scheduleResync has gone, and from which every
  -- reachable state still has run waiting for it.
  pub shutdown_may_hang :
      (p : Producer) (a : Attempt) {q : Producer}
      → connect invalid_revision a (start invalid_revision p).producer ≡ (ok tt, q)
      → (s : State) × Reach invalid_revision capacity (start invalid_revision p) s
        × (s.cancelled ≡ true)
        × ((t : State) → Reach invalid_revision capacity s t → t.run ≡ signalling)
  shutdown_may_hang p a e = (
    _,
    next (next (next here (connected_anew a refl e (ℤ_eq_refl invalid_revision))) cancel)
        (stop_timer refl (λ c. ground arith)),
    refl,
    λ t r. (Reach-IsStuck r (refl, refl)).0,
  )
