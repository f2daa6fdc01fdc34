-- ===== src/Notifications/Producer/Resumption.antt =====
-- The revision that connect asks for after an interruption.
use service_broker_proxy.Prelude.{
  String, Bool, ◌≢◌, ◌≡◌, refl, ap, ◌∙◌, true, false, Option, some, List, [], ◌∷◌, ◌++◌, arith, All,
  Bool-cases, inl, inr,
}
use service_broker_proxy.Prelude.Int.{ℤ, ℤ_eq, ℤ_ltb}
use service_broker_proxy.Types.{last_notification_gone, Notification}
use service_broker_proxy.Exec.{Result, ok, err}
use service_broker_proxy.Notifications.Producer.{
  Producer, Attempt, Headers, bad_certificates, refused, accepted, is_gone, known_revision,
  has_invalid_revision, connect, read_response_headers, read_revision, set_periods,
}
use service_broker_proxy.Notifications.Producer.Loop.{
  Read, received, stopped, read_notifications, session, after_connect, round, rounds,
}
use service_broker_proxy.Sm.Options
use service_broker_proxy.Notifications.Producer.Dial.{Url, Library, Dial, dial}
use service_broker_proxy.Notifications.Producer.Resync.{received_of}

-- The revision after some notifications were read.
abbrev last_revision : List Notification → ℤ → ℤ
last_revision [] revision = revision
last_revision (n ∷ ns) revision = last_revision ns n.revision

read_notifications-revision :
    (reads : List Read) (p : Producer)
    → (read_notifications reads p).1.last_notification_revision
      ≡ last_revision (received_of reads) p.last_notification_revision
unfolding read_notifications
read_notifications-revision [] p = refl
read_notifications-revision (stopped ∷ reads) p = refl
read_notifications-revision (received n ∷ reads) p =
    read_notifications-revision reads (record p { last_notification_revision = n.revision })

last_revision-append :
    (ns : List Notification) (n : Notification) (revision : ℤ)
    → last_revision (ns ++ n ∷ []) revision ≡ n.revision
last_revision-append [] n revision = refl
last_revision-append (x ∷ ns) n revision = last_revision-append ns n x.revision

module _ (invalid_revision : ℤ) where
  -- An attempt that is not answered with the status 410, and whose connection, if it is made, brings no
  -- notification.
  abbrev pub IsInterruption : Attempt × List Read → Type 0
  IsInterruption (refused status, reads) = is_gone invalid_revision status ≡ false
  IsInterruption (bad_certificates, reads) = Unit
  IsInterruption (accepted headers, reads) = received_of reads ≡ []

  abbrev IsValid : Producer → Type 0
  IsValid p = has_invalid_revision invalid_revision p ≡ false

  set_periods-revision :
      (d : Result ℤ) (p : Producer)
      → (set_periods invalid_revision d p).1.last_notification_revision
        ≡ p.last_notification_revision
  unfolding set_periods
  set_periods-revision (err e) p = refl
  set_periods-revision (ok d) p = elim (Bool-cases (ℤ_ltb d p.settings.min_ping_period)) [
    | inl e ↦ rw e refl
    | inr e ↦ rw e refl
  ]

  set_periods-not_gone :
      (d : Result ℤ) (p : Producer)
      → (set_periods invalid_revision d p).0 ≢ err last_notification_gone
  unfolding set_periods
  set_periods-not_gone (err e) p = λ h. ground arith
  set_periods-not_gone (ok d) p = λ h. ground arith

  read_revision-valid :
      (headers : Headers) (p : Producer)
      → IsValid p
      → read_revision invalid_revision headers p ≡ (ok tt, p)
  unfolding read_revision
  read_revision-valid headers p v = rw v refl

  read_response_headers-valid :
      (headers : Headers) (p : Producer)
      → IsValid p
      → read_response_headers invalid_revision headers p
        ≡ set_periods invalid_revision headers.max_ping_period p
  unfolding read_response_headers
  read_response_headers-valid headers p v =
      rw (read_response_headers, read_revision-valid headers p v)
        (ap (λ r. set_periods invalid_revision headers.max_ping_period r.1)
          (read_revision-valid headers p v))

  after_connect-revision :
      (b : Bool) (reads : List Read) (r : Result (Unit {0})) (p : Producer)
      → r ≢ err last_notification_gone
      → received_of reads ≡ []
      → (after_connect invalid_revision b reads r p).1.last_notification_revision
        ≡ p.last_notification_revision
  unfolding after_connect session
  after_connect-revision b reads (ok u) p n h = read_notifications-revision reads p ∙ rw h refl
  after_connect-revision b reads (err e) p n h = ground arith

  round-interruption :
      (a : Attempt) (reads : List Read) (p : Producer)
      → IsValid p
      → IsInterruption (a, reads)
      → (round invalid_revision a reads p).1.last_notification_revision
        ≡ p.last_notification_revision
  unfolding round after_connect session connect
  round-interruption bad_certificates reads p v h = refl
  round-interruption (refused status) reads p v h = rw h refl
  round-interruption (accepted headers) reads p v h =
      let q : Producer = record p { has_conn = true } in
      rw (read_response_headers-valid headers q v) (
        after_connect-revision _ reads _ _ (set_periods-not_gone headers.max_ping_period q) h
        ∙ set_periods-revision headers.max_ping_period q)

  rounds-interruptions :
      (rest : List (Attempt × List Read)) (p : Producer)
      → IsValid p
      → All IsInterruption rest
      → (rounds invalid_revision rest p).1.last_notification_revision ≡ p.last_notification_revision
  unfolding rounds
  rounds-interruptions [] p v h = refl
  rounds-interruptions ((a, reads) ∷ rest) p v (i, h) =
      let e = round-interruption a reads p v i in rounds-interruptions rest _ (rw e v) h ∙ e

  connected-revision :
      (headers : Headers) (reads : List Read) (p : Producer) {q : Producer}
      → connect invalid_revision (accepted headers) p ≡ (ok tt, q)
      → (round invalid_revision (accepted headers) reads p).1 ≡ (read_notifications reads q).1
  unfolding round after_connect session
  connected-revision headers reads p c = rw c refl

  known_revision-valid :
      (p : Producer) (revision : ℤ)
      → p.last_notification_revision ≡ revision
      → ℤ_eq revision invalid_revision ≡ false
      → known_revision invalid_revision p ≡ some revision
  unfolding known_revision
  known_revision-valid p revision e v = rw (e, v) refl

  dial-revision :
      (l : Library) (url : Url) (sm : Options.Settings) (id : Option String) (p : Producer)
      {d : Dial}
      → dial l invalid_revision url sm id p ≡ ok d
      → d.last_known_revision ≡ known_revision invalid_revision p
  unfolding dial
  dial-revision l url sm id p h = ground arith

  -- If a connection brought notifications, then after it and any number of attempts that are not
  -- answered with the status 410 and bring no notification, the next dial asks for the
  -- revision of the last notification read, provided that this is not the invalid revision.
  pub dial_resumes :
      (l : Library) (url : Url) (sm : Options.Settings) (id : Option String) (headers : Headers)
      (reads : List Read) (rest : List (Attempt × List Read)) (ns : List Notification)
      (n : Notification) (p : Producer) {q : Producer} {d : Dial}
      → connect invalid_revision (accepted headers) p ≡ (ok tt, q)
      → received_of reads ≡ ns ++ n ∷ []
      → ℤ_eq n.revision invalid_revision ≡ false
      → All IsInterruption rest
      → dial l invalid_revision url sm id
          (rounds invalid_revision ((accepted headers, reads) ∷ rest) p).1
        ≡ ok d
      → d.last_known_revision ≡ some n.revision
  unfolding rounds
  dial_resumes l url sm id headers reads rest ns n p {q} {d} c r v i h =
      let last : (round invalid_revision (accepted headers) reads p).1.last_notification_revision
          ≡ n.revision =
        rw (connected-revision headers reads p c)
          (read_notifications-revision reads q ∙ rw r (last_revision-append ns n _)) in
      let s : Producer = (round invalid_revision (accepted headers) reads p).1 in
      dial-revision l url sm id _ h
      ∙ known_revision-valid _ n.revision (rounds-interruptions rest s (rw last v) i ∙ last) v
