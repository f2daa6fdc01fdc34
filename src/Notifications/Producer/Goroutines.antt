-- ===== src/Notifications/Producer/Goroutines.antt =====
-- The goroutines of producer.go: run, readNotifications, ping and scheduleResync as a step relation,
-- with the reconciler, which takes messages, and the context, which may be cancelled at any time. The
-- messages channel has a buffer for `capacity` messages; a channel without one is not modelled.
pub mod Session
pub mod Shutdown
pub mod Overtaking
use service_broker_proxy.Prelude.{
  ℕ, zero, suc, ◌+◌, ◌<◌, Bool, true, false, ◌||◌, ◌≡◌, ◌≢◌, List, [], ◌∷◌, ◌++◌, length,
  if◌then◌else◌,
}
use service_broker_proxy.Prelude.Int.{ℤ}
use service_broker_proxy.Types.{Error, last_notification_gone, Notification}
use service_broker_proxy.Exec.{Result, ok, err}
use service_broker_proxy.Reconcile.Reconciler.{Message, resync_message, change}
use service_broker_proxy.Notifications.Producer.{Producer, Attempt, has_invalid_revision, connect}

-- Where run is: before connect, at the send on resyncChan, at the first or second receive from `done`,
-- in the last select of the loop, or returned.
pub data Run : Type 0 where
  connecting signalling first_wait second_wait pausing ended : Run

-- readNotifications: not running, in ReadMessage, or at the send of a notification.
pub data Reader : Type 0 where
  absent reading : Reader
  holding : Notification → Reader

-- scheduleResync: in its first select, at the send of a resync message, or returned.
pub data Timer : Type 0 where
  idle sending stopped : Timer

-- `done` counts the values in the channel of that name; `conn_open` says whether the connection of the
-- last successful connect is open.
pub record State : Type 0 where
  pub producer : Producer
  pub run : Run
  pub reader : Reader
  pub pinging : Bool
  pub timer : Timer
  pub done : ℕ
  pub child_cancelled : Bool
  pub cancelled : Bool
  pub conn_open : Bool
  pub messages : List Message

-- run, when it has set the invalid revision and started scheduleResync
abbrev pub start : ℤ → Producer → State
start invalid_revision p = record {
  producer = record p { last_notification_revision = invalid_revision };
  run = connecting;
  reader = absent;
  pinging = false;
  timer = idle;
  done = 0;
  child_cancelled = false;
  cancelled = false;
  conn_open = false;
  messages = [];
}

-- The two goroutines of a connection, started under a new child context.
abbrev pub begin_session : State → State
begin_session s = record s {
  run = first_wait;
  reader = reading;
  pinging = true;
  done = 0;
  child_cancelled = false;
}

module _ (invalid_revision : ℤ) (capacity : ℕ) where
  pub data Step (s : State) : State → Type 0 where
    cancel : Step s (record s { cancelled = true })
    -- the reconciler
    take :
        {m : Message} {rest : List Message}
        → s.messages ≡ m ∷ rest
        → Step s (record s { messages = rest })
    -- connect
    gone :
        (a : Attempt) {p : Producer}
        → s.run ≡ connecting
        → connect invalid_revision a s.producer ≡ (err last_notification_gone, p)
        → Step s
            (record s { producer = record p { last_notification_revision = invalid_revision } })
    not_connected :
        (a : Attempt) {p : Producer} {e : Error}
        → s.run ≡ connecting
        → connect invalid_revision a s.producer ≡ (err e, p)
        → e ≢ last_notification_gone
        → Step s (record s { producer = p; run = pausing })
    connected :
        (a : Attempt) {p : Producer}
        → s.run ≡ connecting
        → connect invalid_revision a s.producer ≡ (ok tt, p)
        → has_invalid_revision invalid_revision s.producer ≡ false
        → Step s (begin_session (record s { producer = p; conn_open = true }))
    connected_anew :
        (a : Attempt) {p : Producer}
        → s.run ≡ connecting
        → connect invalid_revision a s.producer ≡ (ok tt, p)
        → has_invalid_revision invalid_revision s.producer ≡ true
        → Step s (record s { producer = p; conn_open = true; run = signalling })
    -- the send on resyncChan, which has no buffer
    signal :
        s.run ≡ signalling → s.timer ≡ idle → Step s (begin_session (record s { timer = sending }))
    -- scheduleResync
    resync_period : s.timer ≡ idle → Step s (record s { timer = sending })
    send_resync :
        s.timer ≡ sending
        → length s.messages < capacity
        → Step s (record s { timer = idle; messages = s.messages ++ resync_message ∷ [] })
    stop_timer : s.cancelled ≡ true → s.timer ≢ stopped → Step s (record s { timer = stopped })
    -- readNotifications
    read : (n : Notification) → s.reader ≡ reading → Step s (record s { reader = holding n })
    read_error : s.reader ≡ reading → Step s (record s { reader = absent; done = s.done + 1 })
    send_notification :
        {n : Notification}
        → s.reader ≡ holding n
        → length s.messages < capacity
        → Step s (record s {
          reader = reading;
          messages = s.messages ++ change n ∷ [];
          producer = record s.producer { last_notification_revision = n.revision };
        })
    stop_reader :
        {n : Notification}
        → s.reader ≡ holding n
        → (s.cancelled || s.child_cancelled) ≡ true
        → Step s (record s { reader = absent; done = s.done + 1 })
    -- ping: an error of the connection, or its context
    ping_error : s.pinging ≡ true → Step s (record s { pinging = false; done = s.done + 1 })
    stop_ping :
        s.pinging ≡ true
        → (s.cancelled || s.child_cancelled) ≡ true
        → Step s (record s { pinging = false; done = s.done + 1 })
    -- the two receives from `done`
    first_done :
        {d : ℕ}
        → s.run ≡ first_wait
        → s.done ≡ suc d
        → Step s (record s { run = second_wait; done = d; child_cancelled = true })
    second_done :
        {d : ℕ}
        → s.run ≡ second_wait
        → s.done ≡ suc d
        → Step s (record s { run = pausing; done = d; conn_open = false })
    -- the last select of the loop
    reconnect : s.run ≡ pausing → Step s (record s { run = connecting })
    stop_run : s.run ≡ pausing → s.cancelled ≡ true → Step s (record s { run = ended })

  pub data Reach (s : State) : State → Type 0 where
    here : Reach s s
    next : {t u : State} → Reach s t → Step t u → Reach s u
