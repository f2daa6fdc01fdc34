-- ===== src/Notifications/Producer/Periods.antt =====
-- The periods that readResponseHeaders sets.
use service_broker_proxy.Prelude.{
  ℕ, suc, ◌+◌, ◌*◌, ◌/◌, ◌%◌, ◌^◌, ◌<◌, ◌≡◌, refl, ◌∙◌, ap, true, Option, none, some, Bool-cases,
  inl, inr, arith,
}
use service_broker_proxy.Prelude.Int.{
  ℤ, pos, is_positive, ℤ_ltb, to_bits, of_bits, add_int64, mul_int64, quot_int64,
}
use service_broker_proxy.Exec.{Result, ok, err}
use service_broker_proxy.Notifications.Producer.{
  Producer, Headers, has_invalid_revision, set_revision, read_revision, set_periods,
  read_response_headers,
}

small : (n : ℕ) → n < 2 ^ 63 → n % 2 ^ 64 ≡ n
small n h = omega arith

mul_int64-pos :
    (a b : ℕ) → a < 2 ^ 63 → b < 2 ^ 63 → a * b < 2 ^ 63 → mul_int64 (pos a) (pos b) ≡ pos (a * b)
unfolding mul_int64 to_bits of_bits
mul_int64-pos a b ha hb h = rw (small a ha, small b hb, small (a * b) h) (ground arith)

add_int64-pos : (a b : ℕ) → a + b < 2 ^ 63 → add_int64 (pos a) (pos b) ≡ pos (a + b)
unfolding add_int64 to_bits of_bits
add_int64-pos a b h =
    rw (small a (omega arith), small b (omega arith), small (a + b) h) (ground arith)

-- What set_periods computes from a period and settings that are not negative.
periods :
    (d pct pong : ℕ)
    → d < 2 ^ 63
    → pct < 100
    → d * pct < 2 ^ 63
    → d * pct / 100 + suc pong < 2 ^ 63
    → (let ping = quot_int64 (mul_int64 (pos d) (pos pct)) 100 in
        ℤ_ltb ping (add_int64 ping (pos (suc pong))) ≡ true)
unfolding quot_int64
periods d pct pong hd hp hm ha =
    rw (mul_int64-pos d pct hd (omega arith) hm, add_int64-pos (d * pct / 100) (suc pong) ha)
      (ground arith)

module _ (invalid_revision : ℤ) where
  set_revision_settings :
      (o : Option (Result ℤ)) (p : Producer)
      → (set_revision invalid_revision o p).1.settings ≡ p.settings
  unfolding set_revision
  set_revision_settings none p = refl
  set_revision_settings (some (err e)) p = refl
  set_revision_settings (some (ok n)) p = elim (Bool-cases (is_positive n)) [
    | inl e ↦ rw e refl
    | inr e ↦ rw e refl
  ]

  read_revision_settings :
      (headers : Headers) (p : Producer)
      → (read_revision invalid_revision headers p).1.settings ≡ p.settings
  unfolding read_revision
  read_revision_settings headers p = elim (Bool-cases (has_invalid_revision invalid_revision p)) [
    | inl e ↦ rw e (set_revision_settings headers.last_known_revision p)
    | inr e ↦ rw e refl
  ]

  set_periods_periods :
      (p : Producer) (d pct pong : ℕ)
      → p.settings.ping_period_percentage ≡ pos pct
      → p.settings.pong_timeout ≡ pos (suc pong)
      → d < 2 ^ 63
      → pct < 100
      → d * pct < 2 ^ 63
      → d * pct / 100 + suc pong < 2 ^ 63
      → (set_periods invalid_revision (ok (pos d)) p).0 ≡ ok tt
      → (let q = (set_periods invalid_revision (ok (pos d)) p).1 in
          ℤ_ltb q.ping_period q.read_timeout ≡ true)
  unfolding set_periods
  set_periods_periods p d pct pong ep eq hd hp hm ha r =
      elim (Bool-cases (ℤ_ltb (pos d) p.settings.min_ping_period)) [
        | inl c ↦ ground (arith, rw c at r)
        | inr c ↦ rw c (rw (ep, eq) (periods d pct pong hd hp hm ha))
      ]

  after_revision :
      (r : Result (Unit {0})) (p : Producer) (d pct pong : ℕ)
      → p.settings.ping_period_percentage ≡ pos pct
      → p.settings.pong_timeout ≡ pos (suc pong)
      → d < 2 ^ 63
      → pct < 100
      → d * pct < 2 ^ 63
      → d * pct / 100 + suc pong < 2 ^ 63
      → (let x : Result (Unit {0}) × Producer = elim r [
        | err e ↦ (err e, p)
        | ok u ↦ set_periods invalid_revision (ok (pos d)) p
      ] in
          x.0 ≡ ok tt → ℤ_ltb x.1.ping_period x.1.read_timeout ≡ true)
  after_revision (ok u) p d pct pong ep eq hd hp hm ha h =
      set_periods_periods p d pct pong ep eq hd hp hm ha h
  after_revision (err e) p d pct pong ep eq hd hp hm ha h = ground arith

  -- Where the computation does not overflow, a response that is read without an error leaves a read
  -- timeout that is longer than the ping period.
  pub read_response_headers-periods :
      (p : Producer) (headers : Headers) (d pct pong : ℕ)
      → headers.max_ping_period ≡ ok (pos d)
      → p.settings.ping_period_percentage ≡ pos pct
      → p.settings.pong_timeout ≡ pos (suc pong)
      → d < 2 ^ 63
      → pct < 100
      → d * pct < 2 ^ 63
      → d * pct / 100 + suc pong < 2 ^ 63
      → (read_response_headers invalid_revision headers p).0 ≡ ok tt
      → (let q = (read_response_headers invalid_revision headers p).1 in
          ℤ_ltb q.ping_period q.read_timeout ≡ true)
  unfolding read_response_headers
  read_response_headers-periods p headers d pct pong e ep eq hd hp hm ha r =
      let kept = read_revision_settings headers p in
      rw e (
        after_revision (read_revision invalid_revision headers p).0
          (read_revision invalid_revision headers p).1 d pct pong
          (ap (λ c. c.ping_period_percentage) kept ∙ ep) (ap (λ c. c.pong_timeout) kept ∙ eq) hd hp
          hm ha (rw e at r))
