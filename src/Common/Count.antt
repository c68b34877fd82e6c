-- ===== src/Common/Count.antt =====
-- How many numbers below a bound a test leaves out.
use Prim.Native.Nat.{ℕ, zero, suc, ◌+◌, ◌≤◌, ◌<◌}
use mathlib.Core.Path.{◌≡◌, refl}
use mathlib.Core.Logic.{inl, inr}
use mathlib.Core.Bool.{Bool, true, false}
use native.Mathlib.Decide.{dec_lt}
use native.Mathlib.Omega.{arith}
use luafan.Common.Tests.{if◌then◌else◌, Bool-cases}

unfoldable pub free : (ℕ → Bool) → ℕ → ℕ
free taken zero = 0
free taken (suc n) = (if taken n then 0 else 1) + free taken n

module _ (s t : ℕ → Bool) (more : (a : ℕ) → s a ≡ true → t a ≡ true) where
  -- A test that takes more leaves out less.
  pub free-le : (n : ℕ) → free t n ≤ free s n
  unfolding free
  free-le zero = omega arith
  free-le (suc n) = elim (Bool-cases (s n)) [
    | inl e ↦ rw (e, more n e) (omega (arith, free-le n))
    | inr e ↦ elim (Bool-cases (t n)) [
      | inl g ↦ rw (e, g) (omega (arith, free-le n))
      | inr g ↦ rw (e, g) (omega (arith, free-le n))
    ]
  ]

  pub free-lt : (a n : ℕ) → a < n → s a ≡ false → t a ≡ true → free t n < free s n
  unfolding free
  free-lt a zero h e g = absurd (omega arith)
  free-lt a (suc n) h e g = elim (dec_lt a n) [
    | yes below ↦
        let rest = free-lt a n below e g in
        elim (Bool-cases (s n)) [
          | inl i ↦ rw (i, more n i) (omega (arith, rest))
          | inr i ↦ elim (Bool-cases (t n)) [
            | inl j ↦ rw (i, j) (omega (arith, rest))
            | inr j ↦ rw (i, j) (omega (arith, rest))
          ]
        ]
    | no last ↦
        let top : n ≡ a = omega arith in
        let rest = free-le n in rw top (rw (e, g) (omega (arith, rw top at rest)))
  ]

pub free-none : (n : ℕ) → free (λ a. false) n ≡ n
unfolding free
free-none zero = refl
free-none (suc n) = omega (arith, free-none n)
