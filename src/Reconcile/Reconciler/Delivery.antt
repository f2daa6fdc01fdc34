-- ===== src/Reconcile/Reconciler/Delivery.antt =====
-- What becomes of every message that is sent on the channel.
use mathlib.Core.List.{append_assoc, append-nil}
use service_broker_proxy.Prelude.{
  ℕ, Bool, true, false, ◌≡◌, refl, ◌∙◌, ap, Option, none, some, List, [], ◌∷◌, ◌++◌, map, subst,
  All,
}
use service_broker_proxy.Types.{Notification}
use service_broker_proxy.Reconcile.Reconciler.{
  Message, resync_message, change, Handled, resync_taken, dropped, resynced, consumed, Mode,
  waiting, draining, stopped, State, Step, Reach, here, next, start, send, close, cancel,
  stop_cancelled, stop_closed, take_change, take_resync, drain_one, finish_drain,
}

-- The messages that the reconciler took from the channel.
pub taken : List Handled → List Message
taken [] = []
taken (resync_taken ∷ hs) = resync_message ∷ taken hs
taken (dropped m ∷ hs) = m ∷ taken hs
taken (resynced ∷ hs) = taken hs
taken (consumed n ∷ hs) = change n ∷ taken hs

-- The protocol of a resync, as an automaton whose state says that a resync is due: a message is dropped
-- only while one is due, and no notification is consumed until it has run.
resync_due : Bool → Handled → Option Bool
resync_due false resync_taken = some true
resync_due false (consumed n) = some false
resync_due true (dropped m) = some true
resync_due true resynced = some false
resync_due _ _ = none

due_from : Option Bool → Handled → Option Bool
unfolding resync_due
due_from none h = none
due_from (some due) h = resync_due due h

protocol_from : Option Bool → List Handled → Option Bool
protocol_from o [] = o
protocol_from o (h ∷ hs) = protocol_from (due_from o h) hs

pub protocol : List Handled → Option Bool
unfolding protocol_from
protocol hs = protocol_from (some false) hs

abbrev pub is_draining : Mode → Bool
is_draining waiting = false
is_draining draining = true
is_draining stopped = false

taken-append : (hs ks : List Handled) → taken (hs ++ ks) ≡ taken hs ++ taken ks
unfolding taken
taken-append [] ks = refl
taken-append (resync_taken ∷ hs) ks = ap (λ t. resync_message ∷ t) (taken-append hs ks)
taken-append (dropped m ∷ hs) ks = ap (λ t. m ∷ t) (taken-append hs ks)
taken-append (resynced ∷ hs) ks = taken-append hs ks
taken-append (consumed n ∷ hs) ks = ap (λ t. change n ∷ t) (taken-append hs ks)

protocol_from-append :
    (o : Option Bool) (hs : List Handled) (h : Handled)
    → protocol_from o (hs ++ h ∷ []) ≡ due_from (protocol_from o hs) h
unfolding protocol_from
protocol_from-append o [] h = refl
protocol_from-append o (k ∷ hs) h = protocol_from-append (due_from o k) hs h

-- The notifications that the reconciler consumed.
pub consumed_in : List Handled → List Notification
consumed_in [] = []
consumed_in (consumed n ∷ hs) = n ∷ consumed_in hs
consumed_in (resync_taken ∷ hs) = consumed_in hs
consumed_in (dropped m ∷ hs) = consumed_in hs
consumed_in (resynced ∷ hs) = consumed_in hs

abbrev pub IsChange : Message → Type 0
IsChange resync_message = ⊥
IsChange (change n) = Unit

protocol_from-none : (hs : List Handled) → protocol_from none hs ≡ none
unfolding protocol_from due_from
protocol_from-none [] = refl
protocol_from-none (h ∷ hs) = protocol_from-none hs

broken : (hs : List Handled) (due : Bool) → protocol_from none hs ≡ some due → ⊥
broken hs due e = let p = protocol_from-none hs in cc

All-left : (ms ks : List Message) → All IsChange (ms ++ ks) → All IsChange ms
All-left [] ks a = tt
All-left (m ∷ ms) ks (c, a) = (c, All-left ms ks a)

-- If no resync message was taken, everything that was taken was consumed.
taken-consumed_in :
    (hs : List Handled) (due : Bool)
    → protocol_from (some false) hs ≡ some due
    → All IsChange (taken hs)
    → taken hs ≡ map change (consumed_in hs)
unfolding taken consumed_in protocol_from due_from resync_due
taken-consumed_in [] due e a = refl
taken-consumed_in (resync_taken ∷ hs) due e (c, a) = elim c [ ]
taken-consumed_in (dropped m ∷ hs) due e a = absurd (broken hs due e)
taken-consumed_in (resynced ∷ hs) due e a = absurd (broken hs due e)
taken-consumed_in (consumed n ∷ hs) due e (c, a) =
    ap (λ t. change n ∷ t) (taken-consumed_in hs due e a)

module _ (capacity : ℕ) where
  IsAccounted : State → Type 0
  IsAccounted s = s.sent ≡ taken s.handled ++ s.queue

  take_one :
      (hs : List Handled) (h : Handled) (m : Message) (queue rest sent : List Message)
      → taken (h ∷ []) ≡ m ∷ []
      → queue ≡ m ∷ rest
      → sent ≡ taken hs ++ queue
      → sent ≡ taken (hs ++ h ∷ []) ++ rest
  take_one hs h m queue rest sent e q i =
      i ∙ rw (taken-append hs (h ∷ []), e, q, append_assoc (taken hs) (m ∷ []) rest) refl

  Step-IsAccounted : {s t : State} → Step capacity s t → IsAccounted s → IsAccounted t
  unfolding IsAccounted taken
  Step-IsAccounted {s} (send m o l) i = rw i (append_assoc (taken s.handled) s.queue (m ∷ []))
  Step-IsAccounted close i = i
  Step-IsAccounted cancel i = i
  Step-IsAccounted (stop_cancelled w c) i = i
  Step-IsAccounted (stop_closed w c q) i = i
  Step-IsAccounted {s} (take_change n rest w q) i =
      take_one s.handled _ _ s.queue rest s.sent refl q i
  Step-IsAccounted {s} (take_resync rest w q) i =
      take_one s.handled _ _ s.queue rest s.sent refl q i
  Step-IsAccounted {s} (drain_one m rest d q) i =
      take_one s.handled _ _ s.queue rest s.sent refl q i
  Step-IsAccounted {s} (finish_drain d q) i =
      i ∙ rw (taken-append s.handled (resynced ∷ []), append-nil (taken s.handled)) refl

  Reach-IsAccounted : {s t : State} → Reach capacity s t → IsAccounted s → IsAccounted t
  Reach-IsAccounted here i = i
  Reach-IsAccounted (next r st) i = Step-IsAccounted st (Reach-IsAccounted r i)

  IsInProtocol : State → Type 0
  IsInProtocol s = protocol s.handled ≡ some (is_draining s.mode)

  Step-IsInProtocol : {s t : State} → Step capacity s t → IsInProtocol s → IsInProtocol t
  unfolding IsInProtocol protocol due_from
  Step-IsInProtocol (send m o l) i = i
  Step-IsInProtocol close i = i
  Step-IsInProtocol cancel i = i
  Step-IsInProtocol (stop_cancelled w c) i = i ∙ rw w refl
  Step-IsInProtocol (stop_closed w c q) i = i ∙ rw w refl
  Step-IsInProtocol {s} (take_change n rest w q) i =
      protocol_from-append (some false) s.handled _ ∙ rw (i, w) refl
  Step-IsInProtocol {s} (take_resync rest w q) i =
      protocol_from-append (some false) s.handled _ ∙ rw (i, w) refl
  Step-IsInProtocol {s} (drain_one m rest d q) i =
      protocol_from-append (some false) s.handled _ ∙ rw (i, d) refl
  Step-IsInProtocol {s} (finish_drain d q) i =
      protocol_from-append (some false) s.handled _ ∙ rw (i, d) refl

  Reach-IsInProtocol : {s t : State} → Reach capacity s t → IsInProtocol s → IsInProtocol t
  Reach-IsInProtocol here i = i
  Reach-IsInProtocol (next r st) i = Step-IsInProtocol st (Reach-IsInProtocol r i)

  -- In every reachable state what the reconciler did follows the protocol of a resync: it dropped
  -- messages only after it took a resync message and before it ran the resync, it consumed nothing in between, and
  -- a resync is due exactly while it drains; so once it waits again or stops, every drop was followed by a resync.
  pub drops_resynced :
      (s : State) → Reach capacity start s → protocol s.handled ≡ some (is_draining s.mode)
  unfolding IsInProtocol protocol protocol_from
  drops_resynced s r = Reach-IsInProtocol r refl

  -- In every reachable state of the channel and the reconciler, whatever the order of sends, of the
  -- reconciler's steps and of a cancellation: if no resync message was sent, the messages sent are
  -- the notifications that the reconciler consumed, in the order sent, followed by the messages
  -- still in the channel.
  pub sent_consumed :
      (s : State)
      → Reach capacity start s
      → All IsChange s.sent
      → s.sent ≡ map change (consumed_in s.handled) ++ s.queue
  unfolding IsAccounted taken IsInProtocol protocol protocol_from
  sent_consumed s r a =
      let all = Reach-IsAccounted r refl in
      all
      ∙ ap (λ t. t ++ s.queue)
          (taken-consumed_in s.handled _ (Reach-IsInProtocol r refl)
            (All-left (taken s.handled) s.queue (subst (All IsChange) all a)))
