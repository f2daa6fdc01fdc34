-- ===== src/Notifications/Producer/Resync.antt =====
-- When the producer signals a resync, over all its attempts to connect.
use mathlib.Core.List.{append-nil}
use service_broker_proxy.Prelude.{
  ℕ, true, false, ◌≡◌, refl, sym, ◌∙◌, ap, subst, Option, none, some, List, [], ◌∷◌, ◌++◌, map,
  arith, Bool-cases, ◌⊎◌, inl, inr,
}
use service_broker_proxy.Prelude.Int.{ℤ, is_positive, ℤ_ltb, ℤ_eq, ℤ_eq_refl}
use service_broker_proxy.Types.{Error, Notification}
use service_broker_proxy.Exec.{Result, ok, err}
use service_broker_proxy.Notifications.Producer.{
  ProducerSettings, Producer, Headers, Attempt, bad_certificates, refused, accepted,
  has_invalid_revision, connect,
}
use service_broker_proxy.Notifications.Producer.Loop.{
  Read, received, stopped, Signal, resync_signal, notification_message, read_notifications, round,
  rounds, run,
}

-- The maximal ping period of the response can be used.
abbrev pub HasPeriod : ProducerSettings → Result ℤ → Type 0
HasPeriod settings (ok d) = ℤ_ltb d settings.min_ping_period ≡ false
HasPeriod settings (err e) = ⊥

abbrev pub AreUsable : ProducerSettings → List (Attempt × List Read) → Type 0
AreUsable settings [] = Unit
AreUsable settings ((accepted headers, reads) ∷ rest) =
    HasPeriod settings headers.max_ping_period × AreUsable settings rest
AreUsable settings ((a, reads) ∷ rest) = AreUsable settings rest

-- The first signal, if there is one, is a resync.
abbrev pub StartsWithResync : List Signal → Type 0
StartsWithResync [] = Unit
StartsWithResync (resync_signal ∷ out) = Unit
StartsWithResync (notification_message n ∷ out) = ⊥

abbrev pub received_of : List Read → List Notification
received_of [] = []
received_of (stopped ∷ reads) = []
received_of (received n ∷ reads) = n ∷ received_of reads

read_notifications-received :
    (reads : List Read) (p : Producer)
    → (read_notifications reads p).0 ≡ map notification_message (received_of reads)
unfolding read_notifications
read_notifications-received [] p = refl
read_notifications-received (stopped ∷ reads) p = refl
read_notifications-received (received n ∷ reads) p =
    ap (λ t. notification_message n ∷ t)
      (read_notifications-received reads (record p { last_notification_revision = n.revision }))

module _ (invalid_revision : ℤ) where
  -- A round after which the revision is still invalid signals nothing.
  IsQuiet : ProducerSettings → List Signal × Producer → Type 0
  IsQuiet settings (out, p) =
      (out ≡ []) × (has_invalid_revision invalid_revision p ≡ true) × (p.settings ≡ settings)

  IsResync : List Signal × Producer → Type 0
  IsResync (resync_signal ∷ out, p) = Unit
  IsResync (_, p) = ⊥

  refused_outcome :
      (status : Option ℕ) (reads : List Read) (p : Producer)
      → has_invalid_revision invalid_revision p ≡ true
      → IsQuiet p.settings (round invalid_revision (refused status) reads p)
  unfolding round IsQuiet
  refused_outcome none reads p i = (refl, i, refl)
  refused_outcome (some status) reads p i = ground arith

  accepted_outcome :
      (revision : Option (Result ℤ)) (period : Result ℤ) (reads : List Read) (p : Producer)
      → has_invalid_revision invalid_revision p ≡ true
      → HasPeriod p.settings period
      → (let r =
            round invalid_revision
              (accepted (record { last_known_revision = revision; max_ping_period = period }))
              reads
              p in
          IsQuiet p.settings r ⊎ IsResync r)
  unfolding round IsQuiet IsResync
  accepted_outcome none (ok d) reads p i u = inr (ground arith)
  accepted_outcome (some (err e)) (ok d) reads p i u = inl (ground arith)
  accepted_outcome (some (ok r)) (ok d) reads p i u = elim (Bool-cases (is_positive r)) [
    | inl e ↦ inr (ground arith)
    | inr e ↦ inl (ground arith)
  ]
  accepted_outcome none (err e) reads p i u = elim u [ ]
  accepted_outcome (some r) (err e) reads p i u = elim u [ ]

  resync-append :
      (r : List Signal × Producer) (rest : List Signal)
      → IsResync r
      → StartsWithResync (r.0 ++ rest)
  unfolding IsResync
  resync-append ([], p) rest h = elim h [ ]
  resync-append (resync_signal ∷ out, p) rest h = tt
  resync-append (notification_message n ∷ out, p) rest h = elim h [ ]

  round_outcome :
      (a : Attempt) (reads : List Read) (p : Producer)
      → has_invalid_revision invalid_revision p ≡ true
      → AreUsable p.settings ((a, reads) ∷ [])
      → (let r = round invalid_revision a reads p in IsQuiet p.settings r ⊎ IsResync r)
  unfolding round IsQuiet
  round_outcome bad_certificates reads p i u = inl (refl, i, refl)
  round_outcome (refused status) reads p i u = inl (refused_outcome status reads p i)
  round_outcome (accepted headers) reads p i u =
      accepted_outcome headers.last_known_revision headers.max_ping_period reads p i u.0

  AreUsable-head :
      (settings : ProducerSettings) (a : Attempt) (reads : List Read)
      (rest : List (Attempt × List Read))
      → AreUsable settings ((a, reads) ∷ rest)
      → AreUsable settings ((a, reads) ∷ []) × AreUsable settings rest
  AreUsable-head settings bad_certificates reads rest u = (tt, u)
  AreUsable-head settings (refused status) reads rest u = (tt, u)
  AreUsable-head settings (accepted headers) reads rest u = ((u.0, tt), u.1)

  rounds_invalid :
      (attempts : List (Attempt × List Read)) (p : Producer)
      → has_invalid_revision invalid_revision p ≡ true
      → AreUsable p.settings attempts
      → StartsWithResync (rounds invalid_revision attempts p).0
  unfolding rounds IsQuiet
  rounds_invalid [] p i u = tt
  rounds_invalid ((a, reads) ∷ rest) p i u =
      let us = AreUsable-head p.settings a reads rest u in
      elim (round_outcome a reads p i us.0) [
        | inl q ↦
            let p' = (round invalid_revision a reads p).1 in
            rw q.0 (rounds_invalid rest p' q.1 (subst (λ s. AreUsable s rest) (sym q.2) us.1))
        | inr h ↦ resync-append (round invalid_revision a reads p) _ h
      ]

  -- If every response that accepts a connection has a maximal ping period of at least the minimum of
  -- the settings, then the first signal of a run is a resync, whatever attempts fail before and whatever
  -- revisions the responses have.
  pub run-StartsWithResync :
      (p : Producer) (attempts : List (Attempt × List Read))
      → AreUsable p.settings attempts
      → StartsWithResync (run invalid_revision attempts p).0
  unfolding run
  run-StartsWithResync p attempts u = rounds_invalid attempts _ (ℤ_eq_refl invalid_revision) u

  -- After the Service Manager answered that the last revision is gone, as after the start, the next
  -- signal is a resync, provided the later responses have a usable maximal ping period.
  pub rounds-StartsWithResync :
      (p : Producer) (reads : List Read) (attempts : List (Attempt × List Read))
      → AreUsable p.settings attempts
      → StartsWithResync (rounds invalid_revision ((refused (some 410), reads) ∷ attempts) p).0
  unfolding rounds round
  rounds-StartsWithResync p reads attempts u =
      rounds_invalid attempts _ (ℤ_eq_refl invalid_revision) u

  failed_round :
      (revision : ℤ) (e : Error) (reads : List Read) (p : Producer)
      → has_invalid_revision invalid_revision p ≡ true
      → is_positive revision ≡ true
      → round invalid_revision
          (accepted (record { last_known_revision = some (ok revision); max_ping_period = err e }))
          reads
          p
        ≡ ([], record p { last_notification_revision = revision; has_conn = true })
  unfolding round
  failed_round revision e reads p i pos_r = ground arith

  round_valid :
      (revision : Option (Result ℤ)) (period : Result ℤ) (reads : List Read) (p : Producer)
      → has_invalid_revision invalid_revision p ≡ false
      → HasPeriod p.settings period
      → (round invalid_revision
          (accepted (record { last_known_revision = revision; max_ping_period = period }))
          reads
          p).0
        ≡ map notification_message (received_of reads)
  unfolding round
  round_valid revision (ok d) reads p i u =
      sym (ground arith)
      ∙ read_notifications-received reads
          (connect invalid_revision
            (accepted (record { last_known_revision = revision; max_ping_period = ok d })) p).1
  round_valid revision (err e) reads p i u = elim u [ ]

  -- A response with a good revision and a maximal ping period that cannot be used fails the attempt, but its revision is
  -- kept: after it, a usable response is followed by notifications only, and the resync that a start requires
  -- is not signalled, for any revision that is not the invalid one.
  pub resync_lost :
      (p : Producer) (revision : ℤ) (e : Error) (reads reads' : List Read) (headers : Headers)
      → is_positive revision ≡ true
      → ℤ_eq revision invalid_revision ≡ false
      → HasPeriod p.settings headers.max_ping_period
      → (run invalid_revision
          ((
            accepted (record { last_known_revision = some (ok revision); max_ping_period = err e }),
            reads,
          )
            ∷ (accepted headers, reads')
            ∷ [])
          p).0
        ≡ map notification_message (received_of reads')
  unfolding run rounds round
  resync_lost p revision e reads reads' headers pos_r n u =
      rw
        (failed_round revision e reads (record p { last_notification_revision = invalid_revision })
          (ℤ_eq_refl invalid_revision) pos_r)
        (append-nil _
          ∙ round_valid _ _ reads'
              (record p { last_notification_revision = revision; has_conn = true }) n u)
