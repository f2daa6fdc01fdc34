-- ===== src/Notifications/Producer/Goroutines/Session.antt =====
-- The goroutines of one connection, and its closing.
use service_broker_proxy.Prelude.{ℕ, ◌+◌, ◌≤◌, ◌≡◌, Bool, true, false, ◌⊎◌, arith}
use service_broker_proxy.Prelude.Int.{ℤ}
use service_broker_proxy.Notifications.Producer.{Producer}
use service_broker_proxy.Notifications.Producer.Goroutines.{
  Run, signalling, first_wait, second_wait, Reader, absent, reading, holding, State, start, Step,
  cancel, take, gone, not_connected, connected, connected_anew, signal, resync_period, send_resync,
  stop_timer, read, read_error, send_notification, stop_reader, ping_error, stop_ping, first_done,
  second_done, reconnect, stop_run, Reach, here, next,
}

abbrev is_reading : Reader → ℕ
is_reading absent = 0
is_reading reading = 1
is_reading (holding n) = 1

abbrev is_pinging : Bool → ℕ
is_pinging true = 1
is_pinging false = 0

-- How many values on `done` run has still to receive.
abbrev expected : Run → ℕ
expected first_wait = 2
expected second_wait = 1
expected _ = 0

abbrev IsOpenIn : Run → Bool → Type 0
IsOpenIn signalling is_open = is_open ≡ true
IsOpenIn first_wait is_open = is_open ≡ true
IsOpenIn second_wait is_open = is_open ≡ true
IsOpenIn _ is_open = Unit

pub record Inv (s : State) : Type 0 where
  pub balanced : s.done + is_reading s.reader + is_pinging s.pinging ≡ expected s.run
  pub is_open : IsOpenIn s.run s.conn_open

module _ (invalid_revision : ℤ) (capacity : ℕ) where
  Step-Inv : {s t : State} → Step invalid_revision capacity s t → Inv s → Inv t
  Step-Inv cancel v = ground arith
  Step-Inv (take e) v = ground arith
  Step-Inv (gone a r c) v = ground arith
  Step-Inv (not_connected a r c e) v = ground arith
  Step-Inv (connected a r c h) v = ground arith
  Step-Inv (connected_anew a r c h) v = ground arith
  Step-Inv (signal r e) v = ground arith
  Step-Inv (resync_period e) v = ground arith
  Step-Inv (send_resync e l) v = ground arith
  Step-Inv (stop_timer c e) v = ground arith
  Step-Inv (read n e) v = ground arith
  Step-Inv (read_error e) v = ground arith
  Step-Inv (send_notification e l) v = ground arith
  Step-Inv (stop_reader e c) v = ground arith
  Step-Inv (ping_error e) v = ground arith
  Step-Inv (stop_ping e c) v = ground arith
  Step-Inv (first_done r e) v = ground arith
  Step-Inv (second_done r e) v = ground arith
  Step-Inv (reconnect r) v = ground arith
  Step-Inv (stop_run r c) v = ground arith

  Reach-Inv : {s t : State} → Reach invalid_revision capacity s t → Inv s → Inv t
  Reach-Inv here v = v
  Reach-Inv (next p st) v = Step-Inv st (Reach-Inv p v)

  -- In every reachable state: while the reader or the pinger runs, the connection is open; and `done`
  -- holds at most two values, so that its sends never block.
  pub connection_in_use :
      (p : Producer) (s : State)
      → Reach invalid_revision capacity (start invalid_revision p) s
      → (((s.reader ≡ absent) × (s.pinging ≡ false)) ⊎ (s.conn_open ≡ true)) × (s.done ≤ 2)
  connection_in_use p s r =
      let v = Reach-Inv r (record { balanced = omega arith; is_open = tt }) in ground arith
