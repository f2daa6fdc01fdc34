-- ===== src/Reconcile/Reconciler.antt =====
-- reconciler.go: process and drain as a step relation over the messages channel. The producer may
-- send at any time, also while the reconciler drains the channel.
pub mod Delivery
use service_broker_proxy.Prelude.{
  ℕ, String, ◌<>◌, ◌<◌, Bool, true, false, ◌≡◌, List, [], ◌∷◌, ◌++◌, length,
}
use service_broker_proxy.Types.{Notification}

-- notifications.Message; a resync message has no notification.
pub data Message : Type 0 where
  resync_message : Message
  change : Notification → Message

-- What the reconciler does: a resync message makes it drain the channel, which drops messages, and
-- then resync; any other message is consumed.
pub data Handled : Type 0 where
  resync_taken : Handled
  dropped : Message → Handled
  resynced : Handled
  consumed : Notification → Handled

-- TimestampedError; `cause` is the text of its cause.
pub record TimestampedError : Type 0 where
  pub cause : String
  pub timestamp : String

-- TimestampedError.Error
abbrev pub error_text : TimestampedError → String
error_text e = e.timestamp <> ("-" <> e.cause)

pub data Mode : Type 0 where
  waiting draining stopped : Mode

-- `sent` and `handled` are histories, in the order of time.
pub record State : Type 0 where
  pub mode : Mode
  pub queue : List Message
  pub closed : Bool
  pub cancelled : Bool
  pub sent : List Message
  pub handled : List Handled

module _ (capacity : ℕ) where
  pub data Step (s : State) : State → Type 0 where
    -- the producer, which may stay blocked on a full channel
    send :
        (m : Message)
        → s.closed ≡ false
        → length s.queue < capacity
        → Step s (record s { queue = s.queue ++ m ∷ []; sent = s.sent ++ m ∷ [] })
    close : Step s (record s { closed = true })
    cancel : Step s (record s { cancelled = true })
    -- the select of process
    stop_cancelled : s.mode ≡ waiting → s.cancelled ≡ true → Step s (record s { mode = stopped })
    stop_closed :
        s.mode ≡ waiting → s.closed ≡ true → s.queue ≡ [] → Step s (record s { mode = stopped })
    take_change :
        (n : Notification) (rest : List Message)
        → s.mode ≡ waiting
        → s.queue ≡ change n ∷ rest
        → Step s (record s { queue = rest; handled = s.handled ++ consumed n ∷ [] })
    take_resync :
        (rest : List Message)
        → s.mode ≡ waiting
        → s.queue ≡ resync_message ∷ rest
        → Step s
            (record s { queue = rest; mode = draining; handled = s.handled ++ resync_taken ∷ [] })
    -- drain
    drain_one :
        (m : Message) (rest : List Message)
        → s.mode ≡ draining
        → s.queue ≡ m ∷ rest
        → Step s (record s { queue = rest; handled = s.handled ++ dropped m ∷ [] })
    -- the end of drain, and Resync
    finish_drain :
        s.mode ≡ draining
        → s.queue ≡ []
        → Step s (record s { mode = waiting; handled = s.handled ++ resynced ∷ [] })

  pub data Reach (s : State) : State → Type 0 where
    here : Reach s s
    next : {t u : State} → Reach s t → Step t u → Reach s u

abbrev pub start : State
start = record {
  mode = waiting;
  queue = [];
  closed = false;
  cancelled = false;
  sent = [];
  handled = [];
}
