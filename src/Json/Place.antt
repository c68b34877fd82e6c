-- ===== src/Json/Place.antt =====
-- src/json.c: the line and the column of decode_error_at.
use luafan.Common.{
  ℕ, zero, suc, ◌+◌, ◌≡◌, refl, sym, ap, ap₂, ◌∙◌, true, false, List, [], ◌∷◌, ◌==◌, if◌then◌else◌,
  Bool-cases, inl, inr, length, take, arith,
}
use luafan.Json.Decode.{place}

unfoldable pub newlines : List ℕ → ℕ
newlines [] = 0
newlines (c ∷ s) = (if c == 10 then 1 else 0) + newlines s

-- what stands behind the last newline
unfoldable pub last_line : List ℕ → List ℕ
unfolding newlines
last_line [] = []
last_line (c ∷ s) = if newlines s == 0 then (if c == 10 then s else c ∷ s) else last_line s

abbrev pub line_behind : List ℕ → ℕ
line_behind s = 1 + newlines s

abbrev pub column_behind : List ℕ → ℕ
column_behind s = 1 + length (last_line s)

-- Where the column starts at `col`.
column_from : ℕ → List ℕ → ℕ
column_from col s = if newlines s == 0 then col + length s else column_behind s

place_from :
    (s : List ℕ) (n line col : ℕ)
    → place s n line col ≡ (line + newlines (take n s), column_from col (take n s))
unfolding place newlines last_line column_from
place_from s zero line col = ap₂ (λ l c. (l, c)) (omega arith) (omega arith)
place_from [] (suc n) line col = ap₂ (λ l c. (l, c)) (omega arith) (omega arith)
place_from (c ∷ s) (suc n) line col = elim (Bool-cases (c == 10)) [
  | inl e ↦ elim (Bool-cases (newlines (take n s) == 0)) [
    | inl none_left ↦
        let some_there : (1 + newlines (take n s) == 0) ≡ false = ground arith in
        let rest = place_from s n (line + 1) 1 in
        rw (e, rest, some_there, none_left) (ap₂ (λ l c. (l, c)) (omega arith) refl)
    | inr more ↦
        let some_there : (1 + newlines (take n s) == 0) ≡ false = ground arith in
        let rest = place_from s n (line + 1) 1 in
        rw (e, rest, some_there, more) (ap₂ (λ l c. (l, c)) (omega arith) refl)
  ]
  | inr e ↦
      let same : 0 + newlines (take n s) ≡ newlines (take n s) = omega arith in
      let rest = place_from s n line (col + 1) in
      elim (Bool-cases (newlines (take n s) == 0)) [
        | inl none_left ↦ rw (e, rest, same, none_left) (ap₂ (λ l c. (l, c)) refl (omega arith))
        | inr more ↦ rw (e, rest, same, more) refl
      ]
]

last_line_whole : (s : List ℕ) → newlines s ≡ 0 → last_line s ≡ s
unfolding newlines last_line
last_line_whole [] h = refl
last_line_whole (c ∷ s) h = elim (Bool-cases (c == 10)) [
  | inl e ↦ absurd (omega (arith, rw e at h))
  | inr e ↦
      let none_left : (newlines s == 0) ≡ true = ground (arith, rw e at h) in rw (none_left, e) refl
]

column_from_first : (t : List ℕ) → column_from 1 t ≡ column_behind t
unfolding column_from
column_from_first t = elim (Bool-cases (newlines t == 0)) [
  | inl none_there ↦
      let whole = last_line_whole t (ground arith) in
      rw none_there (ap (λ l. 1 + length l) (sym whole))
  | inr some_there ↦ rw some_there refl
]

-- The place of a position is the line and the column behind the bytes before it.
pub place_lem :
    (s : List ℕ) (n : ℕ) → place s n 1 1 ≡ (line_behind (take n s), column_behind (take n s))
place_lem s n =
    place_from s n 1 1 ∙ ap (λ c. (line_behind (take n s), c)) (column_from_first (take n s))
