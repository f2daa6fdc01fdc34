-- ===== src/Notifications/Producer.antt =====
-- producer.go: the settings of the producer, its state, and one connection attempt. The loop is in
-- the module below. A time.Duration is a number of nanoseconds.
pub mod Loop
pub mod Goroutines
pub mod Resync
pub mod Periods
pub mod Dial
pub mod Resumption
pub mod Start
use service_broker_proxy.Prelude.{
  ℕ, zero, suc, String, Bool, true, false, ◌||◌, not, Option, none, some, ltb, leb, if◌then◌else◌,
}
use service_broker_proxy.Prelude.Int.{
  ℤ, pos, is_positive, is_negative, ℤ_ltb, ℤ_eq, add_int64, mul_int64, quot_int64,
}
use service_broker_proxy.Types.{Error, last_notification_gone, failed}
use service_broker_proxy.Exec.{Result, ok, err}

pub record ProducerSettings : Type 0 where
  pub min_ping_period : ℤ
  pub reconnect_delay : ℤ
  pub pong_timeout : ℤ
  pub ping_period_percentage : ℤ
  pub messages_queue_size : ℤ
  pub resync_period : ℤ

-- Validate
unfoldable pub validate : ProducerSettings → Result (Unit {0})
validate p =
    if not (is_positive p.min_ping_period)
    then err (failed "ProducerSettings: min ping period must be positive duration")
    else if is_negative p.reconnect_delay
    then err (failed "ProducerSettings: reconnect delay must be non-negative duration")
    else if not (is_positive p.pong_timeout)
    then err (failed "ProducerSettings: pong time must be positive duration")
    else if not (is_positive p.ping_period_percentage)
        || not (ℤ_ltb p.ping_period_percentage (pos 100))
    then err (failed "ProducerSettings: ping period percentage must be between 0 and 100")
    else if not (is_positive p.resync_period)
    then err (failed "ProducerSettings: Resync Period must be positive duration")
    else ok tt

-- DefaultProducerSettings
abbrev pub default_producer_settings : ProducerSettings
default_producer_settings = record {
  min_ping_period = pos 1_000_000_000;
  reconnect_delay = pos 3_000_000_000;
  pong_timeout = pos 2_000_000_000;
  ping_period_percentage = pos 60;
  messages_queue_size = pos 1024;
  resync_period = pos 43_200_000_000_000;
}

-- The state of Producer; `has_conn` says whether `conn` is not nil.
pub record Producer : Type 0 where
  pub settings : ProducerSettings
  pub last_notification_revision : ℤ
  pub has_conn : Bool
  pub ping_period : ℤ
  pub read_timeout : ℤ

-- The two headers that readResponseHeaders reads, parsed: the revision is missing, malformed or an
-- int64, and the maximal ping period is malformed (or missing) or a duration.
pub record Headers : Type 0 where
  pub last_known_revision : Option (Result ℤ)
  pub max_ping_period : Result ℤ

-- What an attempt to connect meets: unusable certificates, a failed dial with the status of its
-- response if there was one, or a connection.
pub data Attempt : Type 0 where
  bad_certificates : Attempt
  refused : Option ℕ → Attempt
  accepted : Headers → Attempt

-- types.InvalidRevision of the Service Manager is a parameter.
module _ (invalid_revision : ℤ) where
  abbrev pub has_invalid_revision : Producer → Bool
  has_invalid_revision p = ℤ_eq p.last_notification_revision invalid_revision

  -- The revision that connect puts into the query of the URL.
  unfoldable pub known_revision : Producer → Option ℤ
  known_revision p = if has_invalid_revision p then none else some p.last_notification_revision

  set_revision : Option (Result ℤ) → Producer → Result (Unit {0}) × Producer
  set_revision none p = (ok tt, p)
  set_revision (some (err e)) p = (err (failed "invalid last notification revision received"), p)
  set_revision (some (ok revision)) p =
      if is_positive revision
      then (ok tt, record p { last_notification_revision = revision })
      else (err (failed "invalid last notification revision received"), p)

  -- The first block of readResponseHeaders.
  unfoldable pub read_revision : Headers → Producer → Result (Unit {0}) × Producer
  unfolding set_revision
  read_revision headers p =
      if has_invalid_revision p then set_revision headers.last_known_revision p else (ok tt, p)

  unfoldable pub set_periods : Result ℤ → Producer → Result (Unit {0}) × Producer
  set_periods (err e) p = (err (failed "invalid max ping period received"), p)
  set_periods (ok max_ping_period) p =
      if ℤ_ltb max_ping_period p.settings.min_ping_period
      then (err (failed "invalid max ping period"), p)
      else (let ping_period =
            quot_int64 (mul_int64 max_ping_period p.settings.ping_period_percentage) 100 in
          (
            ok tt,
            record p {
              ping_period = ping_period;
              read_timeout = add_int64 ping_period p.settings.pong_timeout;
            },
          ))

  -- readResponseHeaders
  unfoldable pub read_response_headers : Headers → Producer → Result (Unit {0}) × Producer
  unfolding read_revision set_periods
  read_response_headers headers p =
      let (r, p') = read_revision headers p in
      elim r [ err e ↦ (err e, p') | ok u ↦ set_periods headers.max_ping_period p' ]

  abbrev is_gone : Option ℕ → Bool
  is_gone none = false
  is_gone (some status) = if leb status 410 then leb 410 status else false

  -- connect
  unfoldable pub connect : Attempt → Producer → Result (Unit {0}) × Producer
  unfolding read_response_headers
  connect bad_certificates p = (err (failed "invalidate TLS configuration"), p)
  connect (refused status) p = (
    err (if is_gone status then last_notification_gone else failed "could not connect"),
    record p { has_conn = false },
  )
  connect (accepted headers) p = read_response_headers headers (record p { has_conn = true })
