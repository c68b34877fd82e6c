-- ===== src/Common/Lists.antt =====
-- Lists measured and cut by native numbers, and C's block copies as list functions.
use Prim.Native.Nat.{ℕ, zero, suc, ◌+◌, ◌-◌, ◌≤◌, ◌<◌, min}
use mathlib.Core.Path.{◌≡◌, refl, sym, ap}
use mathlib.Core.List.{List, [], ◌∷◌, ◌++◌}
use mathlib.Core.Option.{Option, none, some}
use native.Mathlib.Omega.{arith}

module _ {ℓ} {A : Type ℓ} where
  abbrev pub length : List A → ℕ
  length [] = 0
  length (x ∷ xs) = suc (length xs)

  abbrev pub get_elem? : List A → ℕ → Option A
  get_elem? [] i = none
  get_elem? (x ∷ xs) zero = some x
  get_elem? (x ∷ xs) (suc i) = get_elem? xs i

  abbrev pub get_or : List A → ℕ → A → A
  get_or [] i d = d
  get_or (x ∷ xs) zero d = x
  get_or (x ∷ xs) (suc i) d = get_or xs i d

  abbrev pub take : ℕ → List A → List A
  take zero xs = []
  take (suc n) [] = []
  take (suc n) (x ∷ xs) = x ∷ take n xs

  abbrev pub drop : ℕ → List A → List A
  drop zero xs = xs
  drop (suc n) [] = []
  drop (suc n) (x ∷ xs) = drop n xs

  abbrev pub All {κ} : (A → Type κ) → List A → Type κ
  All P [] = Unit {κ}
  All P (x ∷ xs) = P x × All P xs

  -- `memcpy(dst + i, src, n)`: a byte past the end of `dst` is not stored.
  abbrev pub blit : List A → ℕ → List A → List A
  blit [] i src = []
  blit (x ∷ xs) zero [] = x ∷ xs
  blit (x ∷ xs) zero (y ∷ ys) = y ∷ blit xs zero ys
  blit (x ∷ xs) (suc i) src = x ∷ blit xs i src

  -- The bytes that `memcpy(out, src + i, n)` reads.
  abbrev pub slice : List A → ℕ → ℕ → List A
  slice xs i n = take n (drop i xs)

  -- The values of a function from index `i` on.
  abbrev pub tabulate : (ℕ → A) → ℕ → ℕ → List A
  tabulate f i zero = []
  tabulate f i (suc n) = f i ∷ tabulate f (i + 1) n

module _ {ℓ} {A : Type ℓ} where
  abbrev pub backwards : List A → List A
  backwards [] = []
  backwards (x ∷ xs) = backwards xs ++ (x ∷ [])

add-suc_left : (m n : ℕ) → suc m + n ≡ suc (m + n)
add-suc_left m n = omega arith

shift_suc : (m n : ℕ) → m + suc n ≡ suc (m + n)
shift_suc m n = omega arith

module _ {ℓ} {A : Type ℓ} where
  pub length-append : (xs ys : List A) → length (xs ++ ys) ≡ length xs + length ys
  length-append [] ys = omega arith
  length-append (x ∷ xs) ys = omega (arith, length-append xs ys)

  pub length-take : (n : ℕ) (xs : List A) → length (take n xs) ≡ min n (length xs)
  length-take zero xs = omega arith
  length-take (suc n) [] = omega arith
  length-take (suc n) (x ∷ xs) = omega (arith, length-take n xs)

  pub length-drop : (n : ℕ) (xs : List A) → length (drop n xs) ≡ length xs - n
  length-drop zero xs = omega arith
  length-drop (suc n) [] = omega arith
  length-drop (suc n) (x ∷ xs) = omega (arith, length-drop n xs)

  pub length-blit : (xs : List A) (i : ℕ) (src : List A) → length (blit xs i src) ≡ length xs
  length-blit [] i src = refl
  length-blit (x ∷ xs) zero [] = refl
  length-blit (x ∷ xs) zero (y ∷ ys) = ap suc (length-blit xs zero ys)
  length-blit (x ∷ xs) (suc i) src = ap suc (length-blit xs i src)

  pub length-tabulate : (f : ℕ → A) (i n : ℕ) → length (tabulate f i n) ≡ n
  length-tabulate f i zero = refl
  length-tabulate f i (suc n) = ap suc (length-tabulate f (i + 1) n)

  pub take-append-drop : (n : ℕ) (xs : List A) → take n xs ++ drop n xs ≡ xs
  take-append-drop zero xs = refl
  take-append-drop (suc n) [] = refl
  take-append-drop (suc n) (x ∷ xs) = ap (◌∷◌ x) (take-append-drop n xs)

  pub take-length_append : (xs ys : List A) → take (length xs) (xs ++ ys) ≡ xs
  take-length_append [] ys = refl
  take-length_append (x ∷ xs) ys = ap (◌∷◌ x) (take-length_append xs ys)

  pub drop-length_append : (xs ys : List A) → drop (length xs) (xs ++ ys) ≡ ys
  drop-length_append [] ys = refl
  drop-length_append (x ∷ xs) ys = drop-length_append xs ys

  pub take_all : (n : ℕ) (xs : List A) → length xs ≤ n → take n xs ≡ xs
  take_all zero [] h = refl
  take_all zero (x ∷ xs) h = absurd (omega arith)
  take_all (suc n) [] h = refl
  take_all (suc n) (x ∷ xs) h = ap (◌∷◌ x) (take_all n xs (omega arith))

  pub take-take : (m n : ℕ) (xs : List A) → m ≤ n → take m (take n xs) ≡ take m xs
  take-take zero n xs h = refl
  take-take (suc m) zero xs h = absurd (omega arith)
  take-take (suc m) (suc n) [] h = refl
  take-take (suc m) (suc n) (x ∷ xs) h = ap (◌∷◌ x) (take-take m n xs (omega arith))

  pub take-append : (n : ℕ) (xs ys : List A) → n ≤ length xs → take n (xs ++ ys) ≡ take n xs
  take-append zero xs ys h = refl
  take-append (suc n) [] ys h = absurd (omega arith)
  take-append (suc n) (x ∷ xs) ys h = ap (◌∷◌ x) (take-append n xs ys (omega arith))

  pub take-nil : (n : ℕ) → take {A = A} n [] ≡ []
  take-nil zero = refl
  take-nil (suc n) = refl

  pub drop-nil : (n : ℕ) → drop {A = A} n [] ≡ []
  drop-nil zero = refl
  drop-nil (suc n) = refl

  pub drop-drop : (m n : ℕ) (xs : List A) → drop m (drop n xs) ≡ drop (n + m) xs
  drop-drop m zero xs = ap (λ k. drop k xs) (omega arith)
  drop-drop zero (suc n) [] = sym (drop-nil (suc n + 0))
  drop-drop (suc m) (suc n) [] = sym (drop-nil (suc n + suc m))
  drop-drop m (suc n) (x ∷ xs) = rw add-suc_left (drop-drop m n xs)

  pub drop-take : (m n : ℕ) (xs : List A) → drop m (take (m + n) xs) ≡ take n (drop m xs)
  drop-take zero n xs = ap (λ k. take k xs) (omega arith)
  drop-take (suc m) zero [] = ap (drop (suc m)) (take-nil (suc m + 0))
  drop-take (suc m) (suc n) [] = ap (drop (suc m)) (take-nil (suc m + suc n))
  drop-take (suc m) n (x ∷ xs) = rw add-suc_left (drop-take m n xs)

  -- A block copy that fits leaves what stands before it, then the block.
  pub take-blit :
      (xs : List A) (i : ℕ) (src : List A)
      → i + length src ≤ length xs
      → take (i + length src) (blit xs i src) ≡ take i xs ++ src
  take-blit xs zero [] h = refl
  take-blit [] zero (y ∷ ys) h = absurd (omega arith)
  take-blit (x ∷ xs) zero (y ∷ ys) h =
      rw (shift_suc zero (length ys)) (ap (◌∷◌ y) (take-blit xs zero ys (omega arith)))
  take-blit [] (suc i) src h = absurd (omega arith)
  take-blit (x ∷ xs) (suc i) src h =
      rw (add-suc_left i (length src)) (ap (◌∷◌ x) (take-blit xs i src (omega arith)))

  pub take-blit_start :
      (xs src : List A) → length src ≤ length xs → take (length src) (blit xs zero src) ≡ src
  take-blit_start [] [] h = refl
  take-blit_start [] (y ∷ ys) h = absurd (omega arith)
  take-blit_start (x ∷ xs) [] h = refl
  take-blit_start (x ∷ xs) (y ∷ ys) h = ap (◌∷◌ y) (take-blit_start xs ys (omega arith))

  pub length-backwards : (xs : List A) → length (backwards xs) ≡ length xs
  length-backwards [] = refl
  length-backwards (x ∷ xs) =
      omega (arith, length-append (backwards xs) (x ∷ []), length-backwards xs)

  backwards-append : (xs : List A) (y : A) → backwards (xs ++ (y ∷ [])) ≡ y ∷ backwards xs
  backwards-append [] y = refl
  backwards-append (x ∷ xs) y = ap (λ t. t ++ (x ∷ [])) (backwards-append xs y)

  pub backwards-backwards : (xs : List A) → backwards (backwards xs) ≡ xs
  backwards-backwards [] = refl
  backwards-backwards (x ∷ xs) =
      rw (backwards-append (backwards xs) x) (ap (◌∷◌ x) (backwards-backwards xs))

  -- What stands below the cut of a prefix.
  pub get_or-take : (n i : ℕ) (xs : List A) (d : A) → i < n → get_or (take n xs) i d ≡ get_or xs i d
  get_or-take zero i xs d h = absurd (omega arith)
  get_or-take (suc n) i [] d h = refl
  get_or-take (suc n) zero (x ∷ xs) d h = refl
  get_or-take (suc n) (suc i) (x ∷ xs) d h = get_or-take n i xs d (omega arith)

  pub slice-take : (n i k : ℕ) (xs : List A) → i + k ≤ n → slice (take n xs) i k ≡ slice xs i k
  slice-take n zero k xs h = take-take k n xs (omega arith)
  slice-take zero (suc i) k xs h = absurd (omega arith)
  slice-take (suc n) (suc i) k [] h = refl
  slice-take (suc n) (suc i) k (x ∷ xs) h = slice-take n i k xs (omega arith)

  pub blit_whole : (xs src : List A) → length src ≡ length xs → blit xs zero src ≡ src
  blit_whole [] [] h = refl
  blit_whole [] (y ∷ ys) h = absurd (omega arith)
  blit_whole (x ∷ xs) [] h = absurd (omega arith)
  blit_whole (x ∷ xs) (y ∷ ys) h = ap (◌∷◌ y) (blit_whole xs ys (omega arith))
