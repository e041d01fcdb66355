-- ===== src/Scheduler/Backoff.antt =====
-- The delay of a retry in failTask (internal/scheduler/scheduler.go), in the arithmetic of int64.
use Prim.Native.Nat.{min}
use native.Mathlib.Nat.{mod-eq_of_lt, pow-suc}
use mini_bk.Prelude.{
  ℕ, zero, suc, lt→ltb, ◌-◌, ◌*◌, ◌%◌, ◌^◌, ◌<◌, ◌≤◌, ◌≡◌, arith, ltb, if◌then◌else◌,
}
use mini_bk.Prelude.Int.{ℤ, pos, negsuc, ltb_ℤ, ◌≤ℤ◌}

abbrev pub two_64 : ℕ
two_64 = 18_446_744_073_709_551_616

abbrev pub two_63 : ℕ
two_63 = 9_223_372_036_854_775_808

-- The bits of an int64, and the int64 of some bits.
unfoldable pub to_bits : ℤ → ℕ
to_bits (pos n) = n % two_64
to_bits (negsuc n) = two_64 - 1 - n % two_64

unfoldable pub of_bits : ℕ → ℤ
of_bits b = if ltb b two_63 then pos b else negsuc (two_64 - 1 - b)

unfoldable pub mul_bits : ℕ → ℕ → ℕ
mul_bits a b = a * b % two_64

-- `1 << k`, for a count that is not negative (Go panics at a negative one).
unfoldable pub shift_bits : ℤ → ℕ
shift_bits (pos k) = if ltb k 64 then 2 ^ k else 0
shift_bits (negsuc k) = 0

-- 5 minutes in nanoseconds.
abbrev pub max_retry_delay : ℤ
max_retry_delay = pos 300_000_000_000

unfoldable pub raw_delay : ℤ → ℤ → ℤ
unfolding to_bits of_bits mul_bits shift_bits
raw_delay interval_sec retry_count =
    of_bits (mul_bits (mul_bits (to_bits interval_sec) 1_000_000_000) (shift_bits retry_count))

cap_delay : ℤ → ℤ
cap_delay d = if ltb_ℤ max_retry_delay d then max_retry_delay else d

unfoldable pub retry_delay : ℤ → ℤ → ℤ
unfolding cap_delay
retry_delay interval_sec retry_count = cap_delay (raw_delay interval_sec retry_count)

cap_delay-le : (d : ℤ) → cap_delay d ≤ℤ max_retry_delay
unfolding cap_delay
cap_delay-le d = ground arith

-- However large the interval and the count are, no retry is delayed by more than five minutes.
pub retry_delay-le :
    (interval_sec retry_count : ℤ) → retry_delay interval_sec retry_count ≤ℤ max_retry_delay
unfolding retry_delay
retry_delay-le i k = cap_delay-le (raw_delay i k)

le-mul_pos : (a s : ℕ) → 1 ≤ s → a ≤ a * s
le-mul_pos a s h = grind arith

pow_pos : (k : ℕ) → 1 ≤ 2 ^ k
pow_pos zero = omega arith
pow_pos (suc k) = rw pow-suc (omega (arith, pow_pos k))

bits_exact :
    (i s : ℕ)
    → 1 ≤ s
    → i * 1_000_000_000 * s < two_63
    → of_bits (mul_bits (mul_bits (to_bits (pos i)) 1_000_000_000) s) ≡ pos (i * 1_000_000_000 * s)
unfolding of_bits mul_bits to_bits
bits_exact i s one h =
    let small : i * 1_000_000_000 < two_63 = omega (arith, le-mul_pos (i * 1_000_000_000) s one) in
    rw
      (
        mod-eq_of_lt {n = i} {m = two_64} (omega arith),
        mod-eq_of_lt {n = i * 1_000_000_000} {m = two_64} (omega arith),
        mod-eq_of_lt {n = i * 1_000_000_000 * s} {m = two_64} (omega arith),
      )
      (ground arith)

-- While the product of the interval in nanoseconds and 2 to the retry count fits an int64, the delay
-- is that product, cut off at five minutes.
pub retry_delay-exact :
    (interval_sec retry_count : ℕ)
    → retry_count < 64
    → interval_sec * 1_000_000_000 * 2 ^ retry_count < two_63
    → retry_delay (pos interval_sec) (pos retry_count)
      ≡ pos (min (interval_sec * 1_000_000_000 * 2 ^ retry_count) 300_000_000_000)
unfolding retry_delay raw_delay shift_bits
retry_delay-exact i k small h =
    rw (lt→ltb k 64 small, bits_exact i (2 ^ k) (pow_pos k) h) (ground arith)
