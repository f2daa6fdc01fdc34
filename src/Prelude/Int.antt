-- ===== src/Prelude/Int.antt =====
-- Signed integers over the native numbers, and the int64 operations of Go on them. `negsuc n` is
-- -(n + 1).
use mathlib.Core.Path.{◌≡◌}
use native.Mathlib.Omega.{arith}
use Prim.Native.Nat.{ℕ, zero, suc, ◌+◌, ◌-◌, ◌*◌, ◌/◌, ◌%◌, ◌^◌}
use mathlib.Core.Bool.{Bool, true, false}
use service_broker_proxy.Prelude.Tests.{ltb, leb, if◌then◌else◌}

pub data ℤ : Type 0 where
  pos : ℕ → ℤ
  negsuc : ℕ → ℤ

-- `0 < n`
abbrev pub is_positive : ℤ → Bool
is_positive (pos zero) = false
is_positive (pos (suc n)) = true
is_positive (negsuc n) = false

-- `n < 0`
abbrev pub is_negative : ℤ → Bool
is_negative (pos n) = false
is_negative (negsuc n) = true

abbrev pub ℤ_ltb : ℤ → ℤ → Bool
ℤ_ltb (pos a) (pos b) = ltb a b
ℤ_ltb (pos a) (negsuc b) = false
ℤ_ltb (negsuc a) (pos b) = true
ℤ_ltb (negsuc a) (negsuc b) = ltb b a

abbrev pub ℤ_eq : ℤ → ℤ → Bool
ℤ_eq (pos a) (pos b) = if leb a b then leb b a else false
ℤ_eq (pos a) (negsuc b) = false
ℤ_eq (negsuc a) (pos b) = false
ℤ_eq (negsuc a) (negsuc b) = if leb a b then leb b a else false

-- The two's complement bits of a 64-bit integer, and the integer that bits stand for.
unfoldable pub to_bits : ℤ → ℕ
to_bits (pos n) = n % 2 ^ 64
to_bits (negsuc n) = 2 ^ 64 - 1 - n % 2 ^ 64

unfoldable pub of_bits : ℕ → ℤ
of_bits n = if ltb n (2 ^ 63) then pos n else negsuc (2 ^ 64 - 1 - n)

-- `a + b`, `a * b` and `a / n` on int64
unfoldable pub add_int64 : ℤ → ℤ → ℤ
unfolding to_bits of_bits
add_int64 a b = of_bits ((to_bits a + to_bits b) % 2 ^ 64)

unfoldable pub mul_int64 : ℤ → ℤ → ℤ
unfolding to_bits of_bits
mul_int64 a b = of_bits ((to_bits a * to_bits b) % 2 ^ 64)

negated : ℕ → ℤ
negated zero = pos 0
negated (suc n) = negsuc n

unfoldable pub quot_int64 : ℤ → ℕ → ℤ
unfolding negated
quot_int64 (pos a) n = pos (a / n)
quot_int64 (negsuc a) n = negated ((a + 1) / n)

pub ℤ_eq_refl : (n : ℤ) → ℤ_eq n n ≡ true
ℤ_eq_refl (pos n) = ground arith
ℤ_eq_refl (negsuc n) = ground arith
