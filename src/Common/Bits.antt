-- ===== src/Common/Bits.antt =====
-- Laws of the bit operations at variables, for low masks and for fields that do not overlap.
use Prim.Native.Nat.{
  ℕ, zero, suc, ◌+◌, ◌-◌, ◌*◌, ◌/◌, ◌%◌, ◌^◌, ◌≤◌, ◌<◌, min, max, bit_and, bit_or, bit_xor, digits,
  differ, bitwise, bit_and-bitwise, bit_or-bitwise, bit_xor-bitwise,
}
use mathlib.Core.Path.{◌≡◌, refl, sym, ap, ◌∙◌}
use mathlib.Core.Bool.{true, ◌&&◌}
use luafan.Common.Tests.{◌==◌, ==→eq, passes, passes_at}
use native.Mathlib.Omega.{arith}
use native.Mathlib.Nat.{div-div-eq-div-mul, pow-suc, one-le-pow, div-add-mod}

-- `bitwise` is a recursion on binary digits that counts down from its first number; any count from
-- there on gives the same digits, so the lowest one can be split off.
module _ (z : ℕ → ℕ) (f : ℕ → ℕ → ℕ) where
  digits-bitwise : (bound n m k : ℕ) → n ≤ bound → m ≤ n → digits z f n m k ≡ bitwise z f m k
  digits-bitwise bound zero zero k le small = refl
  digits-bitwise bound zero (suc m) k le small = elim small [ ]
  digits-bitwise bound (suc n) zero k le small = refl
  digits-bitwise zero (suc n) (suc m) k le small = elim le [ ]
  digits-bitwise (suc bound) (suc n) (suc m) k le small =
      let half : suc m / 2 ≤ m = omega arith in
      let left = digits-bitwise bound n (suc m / 2) (k / 2) (omega arith) (omega arith) in
      let right = digits-bitwise bound m (suc m / 2) (k / 2) (omega arith) half in
      ap (λ t. t * 2 + f (suc m % 2) (k % 2)) (left ∙ sym right)

  split_digit :
      (m k : ℕ)
      → bitwise z f (suc m) k ≡ bitwise z f (suc m / 2) (k / 2) * 2 + f (suc m % 2) (k % 2)
  split_digit m k =
      ap (λ t. t * 2 + f (suc m % 2) (k % 2))
        (digits-bitwise m m (suc m / 2) (k / 2) (omega arith) (omega arith))

-- Each operation on the lowest digits, and twice the operation on the others.
pub bit_or_low : (m n : ℕ) → bit_or m n ≡ max (m % 2) (n % 2) + 2 * bit_or (m / 2) (n / 2)
bit_or_low zero n = omega (arith, bit_or-bitwise zero n, bit_or-bitwise zero (n / 2))
bit_or_low (suc m) n = omega (
  arith,
  split_digit (λ y. y) max m n,
  bit_or-bitwise (suc m) n,
  bit_or-bitwise (suc m / 2) (n / 2),
)

pub bit_xor_low : (m n : ℕ) → bit_xor m n ≡ differ (m % 2) (n % 2) + 2 * bit_xor (m / 2) (n / 2)
bit_xor_low zero n = omega (arith, bit_xor-bitwise zero n, bit_xor-bitwise zero (n / 2))
bit_xor_low (suc m) n = omega (
  arith,
  split_digit (λ y. y) differ m n,
  bit_xor-bitwise (suc m) n,
  bit_xor-bitwise (suc m / 2) (n / 2),
)

pub bit_and_low : (m n : ℕ) → bit_and m n ≡ min (m % 2) (n % 2) + 2 * bit_and (m / 2) (n / 2)
bit_and_low zero n = omega (arith, bit_and-bitwise zero n, bit_and-bitwise zero (n / 2))
bit_and_low (suc m) n = omega (
  arith,
  split_digit (λ _. 0) min m n,
  bit_and-bitwise (suc m) n,
  bit_and-bitwise (suc m / 2) (n / 2),
)

-- Induction goes from `a / 2` to `a`, under a bound that falls.
bit_or-zero_below : (n a : ℕ) → a ≤ n → bit_or a 0 ≡ a
bit_or-zero_below n zero h = refl
bit_or-zero_below zero (suc a) h = absurd (omega arith)
bit_or-zero_below (suc n) (suc a) h =
    omega (arith, bit_or_low (suc a) 0, bit_or-zero_below n (suc a / 2) (omega arith))

bit_and-zero_below : (n a : ℕ) → a ≤ n → bit_and a 0 ≡ 0
bit_and-zero_below n zero h = refl
bit_and-zero_below zero (suc a) h = absurd (omega arith)
bit_and-zero_below (suc n) (suc a) h =
    omega (arith, bit_and_low (suc a) 0, bit_and-zero_below n (suc a / 2) (omega arith))

two_times_pow : (q k : ℕ) → q * 2 ^ suc k ≡ 2 * (q * 2 ^ k)
two_times_pow q k = omega (arith, ap (λ (t : ℕ). q * t) (pow-suc 2 k))

-- `(q << k) | r` is a sum where `r` has `k` bits.
pub bit_or_disjoint : (k q r : ℕ) → r < 2 ^ k → bit_or r (q * 2 ^ k) ≡ r + q * 2 ^ k
bit_or_disjoint zero q zero h =
    omega (arith, bit_or_low 0 (q * 2 ^ 0), bit_or-bitwise 0 (q * 2 ^ 0))
bit_or_disjoint zero q (suc r) h = absurd (omega arith)
bit_or_disjoint (suc k) q r h = ground (
  arith,
  pow-suc 2 k,
  bit_or_low r (q * 2 ^ suc k),
  two_times_pow q k,
  bit_or_disjoint k q (r / 2) (omega (arith, pow-suc 2 k)),
)

bit_and_field : (k q r : ℕ) → r < 2 ^ k → bit_and (r + q * 2 ^ k) (2 ^ k - 1) ≡ r
bit_and_field zero q r h =
    omega (arith, bit_and-zero_below (r + q * 2 ^ 0) (r + q * 2 ^ 0) (omega arith))
bit_and_field (suc k) q r h = ground (
  arith,
  pow-suc 2 k,
  two_times_pow q k,
  bit_and_low (r + q * 2 ^ suc k) (2 ^ suc k - 1),
  bit_and_field k q (r / 2) (omega (arith, pow-suc 2 k)),
)

-- `a & (2 ^ k - 1)` is the remainder by `2 ^ k`.
pub bit_and_mask : (k a : ℕ) → bit_and a (2 ^ k - 1) ≡ a % 2 ^ k
bit_and_mask k a =
    ground (arith, one-le-pow k 2, div-add-mod a (2 ^ k), bit_and_field k (a / 2 ^ k) (a % 2 ^ k))

differ_one : (d : ℕ) → d < 2 → differ d 1 ≡ 1 - d
differ_one zero h = refl
differ_one (suc zero) h = refl
differ_one (suc (suc d)) h = absurd (omega arith)

-- `a ^ (2 ^ k - 1)` inverts `k` bits.
pub bit_xor_mask : (k a : ℕ) → a < 2 ^ k → bit_xor a (2 ^ k - 1) ≡ 2 ^ k - 1 - a
bit_xor_mask zero zero h = refl
bit_xor_mask zero (suc a) h = absurd (omega arith)
bit_xor_mask (suc k) a h = ground (
  arith,
  pow-suc 2 k,
  one-le-pow k 2,
  bit_xor_low a (2 ^ suc k - 1),
  differ_one (a % 2),
  bit_xor_mask k (a / 2) (omega (arith, pow-suc 2 k)),
)

-- The same with the high field first, as in `(q << k) | r`.
pub bit_or_fields : (k q r : ℕ) → r < 2 ^ k → bit_or (q * 2 ^ k) r ≡ q * 2 ^ k + r
bit_or_fields zero q zero h = bit_or-zero_below (q * 2 ^ 0) (q * 2 ^ 0) (omega arith) ∙ omega arith
bit_or_fields zero q (suc r) h = absurd (omega arith)
bit_or_fields (suc k) q r h = ground (
  arith,
  pow-suc 2 k,
  bit_or_low (q * 2 ^ suc k) r,
  two_times_pow q k,
  bit_or_fields k q (r / 2) (omega (arith, pow-suc 2 k)),
)

top_bit_table : passes (λ b. bit_and b 128 == b / 128 * 128) 256 ≡ true
unfolding passes
top_bit_table = refl

-- The top bit of a byte.
pub bit_and_top : (b : ℕ) → b < 256 → bit_and b 128 ≡ b / 128 * 128
bit_and_top b h = ==→eq _ _ (passes_at (λ b. bit_and b 128 == b / 128 * 128) 256 top_bit_table b h)

-- The union of two numbers of `k` bits has `k` bits.
pub bit_or-lt : (k a b : ℕ) → a < 2 ^ k → b < 2 ^ k → bit_or a b < 2 ^ k
bit_or-lt zero zero zero h g = omega arith
bit_or-lt zero (suc a) b h g = absurd (omega arith)
bit_or-lt zero zero (suc b) h g = absurd (omega arith)
bit_or-lt (suc k) a b h g = ground (
  arith,
  pow-suc 2 k,
  bit_or_low a b,
  bit_or-lt k (a / 2) (b / 2) (omega (arith, pow-suc 2 k)) (omega (arith, pow-suc 2 k)),
)

flag_table :
    passes
      (λ b.
        (bit_and b 64 == b / 64 % 2 * 64)
        && (bit_and b 32 == b / 32 % 2 * 32)
        && (bit_and b 16 == b / 16 % 2 * 16))
      256
    ≡ true
unfolding passes
flag_table = refl

-- The three bits of a byte below the top one.
pub bit_and_flags :
    (b : ℕ)
    → b < 256
    → (bit_and b 64 ≡ b / 64 % 2 * 64)
      × (bit_and b 32 ≡ b / 32 % 2 * 32)
      × (bit_and b 16 ≡ b / 16 % 2 * 16)
bit_and_flags b h = let test = passes_at _ 256 flag_table b h in ground (arith, test)

-- A mask of high bits reads the high part.
pub bit_and_high : (k a b : ℕ) → bit_and a (b * 2 ^ k) ≡ bit_and (a / 2 ^ k) b * 2 ^ k
bit_and_high zero a b =
    let same : b * 2 ^ 0 ≡ b = omega arith in
    let whole : a / 2 ^ 0 ≡ a = omega arith in rw (same, whole) (omega arith)
bit_and_high (suc k) a b =
    let next = bit_and_high k (a / 2) b in
    let turned : 2 * 2 ^ k ≡ 2 ^ suc k = omega (arith, pow-suc 2 k) in
    let halves : a / 2 / 2 ^ k ≡ a / 2 ^ suc k =
      div-div-eq-div-mul a 2 (2 ^ k) ∙ ap (λ (t : ℕ). a / t) turned in
    ground (
      arith,
      pow-suc 2 k,
      two_times_pow b k,
      two_times_pow (bit_and (a / 2 ^ suc k) b) k,
      bit_and_low a (b * 2 ^ suc k),
      next,
      halves,
    )
