-- ===== src/ByteArray/Capacity.antt =====
-- src/bytearray.c: the sizes that `ensure_capacity_optimized` asks for.
use luafan.Common.{
  ℕ, ◌+◌, ◌*◌, ◌/◌, ◌%◌, ◌^◌, ◌≤◌, ◌<◌, ◌≡◌, refl, true, leb, ◌==◌, ==→eq, if◌then◌else◌, passes,
  passes_at, arith,
}
use native.Mathlib.Decide.{dec_le}
use luafan.ByteArray.Grow.{next_power_of_2, grown_size}

-- the exponent of the least power of two from 128 on that holds `n`, for `n` up to 4096
exponent : ℕ → ℕ
exponent n =
    if leb n 128
    then 7
    else if leb n 256
    then 8
    else if leb n 512
    then 9
    else if leb n 1024
    then 10
    else if leb n 2048
    then 11
    else 12

rounded_table : passes (λ n. next_power_of_2 n == 2 ^ exponent n) 4097 ≡ true
unfolding passes next_power_of_2 exponent
rounded_table = refl

next_power_of_2-exponent : (n : ℕ) → n ≤ 4096 → next_power_of_2 n ≡ 2 ^ exponent n
next_power_of_2-exponent n h =
    ==→eq _ _
      (passes_at (λ n. next_power_of_2 n == 2 ^ exponent n) 4097 rounded_table n (omega arith))

exponent_fits : (n : ℕ) → n ≤ 4096 → (n ≤ 2 ^ exponent n) × (128 < n → 2 ^ exponent n < 2 * n)
unfolding exponent
exponent_fits n h = ground arith

-- For a size up to 4096 the capacity is a power of two, from 128 on, that holds the size and, above
-- 128, is less than twice the size.
pub next_power_of_2_least :
    (n : ℕ)
    → n ≤ 4096
    → (k : ℕ) × (next_power_of_2 n ≡ 2 ^ k) × (7 ≤ k) × (n ≤ 2 ^ k) × (128 < n → 2 ^ k < 2 * n)
unfolding exponent
next_power_of_2_least n h = (
  exponent n,
  next_power_of_2-exponent n h,
  ground arith,
  (exponent_fits n h).0,
  (exponent_fits n h).1,
)

next_power_of_2_range :
    (n : ℕ)
    → n ≤ 4096
    → (n ≤ next_power_of_2 n) × (128 ≤ next_power_of_2 n) × (next_power_of_2 n ≤ 4096)
unfolding exponent
next_power_of_2_range n h = rw (next_power_of_2-exponent n h) (ground arith)

-- Up to 2 ^ 62 the new capacity holds what is needed and stays below 2 ^ 63; above 4096 it adds a
-- quarter and at most 63 bytes more, and is a whole number of cache lines.
pub grown_size_range :
    (n : ℕ)
    → n ≤ 2 ^ 62
    → (n ≤ grown_size n)
      × (grown_size n < 2 ^ 63)
      × (4096 < n
          → (n + n / 4 ≤ grown_size n) × (grown_size n < n + n / 4 + 64) × (grown_size n % 64 ≡ 0))
unfolding grown_size
grown_size_range n h = elim (dec_le n 4096) [
  | yes p ↦ ground (arith, next_power_of_2_range n p)
  | no p ↦ ground arith
]
