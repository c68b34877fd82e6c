-- ===== src/Json/Spelled.antt =====
-- src/json.c: what encode_string writes for a byte.
use luafan.Common.{
  ℕ, ◌/◌, ◌%◌, ◌^◌, ◌≡◌, refl, sym, ap, ◌∙◌, false, ltb, ◌==◌, Bool-cases, inl, inr, List, ◌∷◌,
  ◌++◌, arith,
}
use luafan.Json.Chars.{backslash, quote, escape_of}
use luafan.Json.Decode.{positive_zero}
use luafan.Json.Print.{hex_text, control_text, spelled, escaped, shown}

-- The escape of a byte is its spelling.
pub escape_of-spelled : (c : ℕ) → escape_of c ≡ spelled c
unfolding escape_of spelled control_text hex_text
escape_of-spelled c = elim (Bool-cases (ltb c 32)) [
  | inl small ↦
      let no_backslash : (c == backslash) ≡ false = ground arith in
      let no_quote : (c == quote) ≡ false = ground arith in
      let first : c / 2 ^ 12 % 16 ≡ 0 = ground arith in
      let second : c / 2 ^ 8 % 16 ≡ 0 = ground arith in
      let third : c / 2 ^ 4 % 16 ≡ c / 16 = ground arith in
      rw (no_backslash, no_quote, small, first, second, third) refl
  | inr large ↦
      let no_8 : (c == 8) ≡ false = ground arith in
      let no_12 : (c == 12) ≡ false = ground arith in
      let no_10 : (c == 10) ≡ false = ground arith in
      let no_13 : (c == 13) ≡ false = ground arith in
      let no_9 : (c == 9) ≡ false = ground arith in
      elim (Bool-cases (c == quote)) [
        | inl is_quote ↦
            let no_backslash : (c == backslash) ≡ false = ground arith in
            rw (no_backslash, large, is_quote) refl
        | inr no_quote ↦ rw (large, no_8, no_12, no_10, no_13, no_9, no_quote) refl
      ]
]

pub escaped-escape_of : (c : ℕ) (s : List ℕ) → escaped (c ∷ s) ≡ escape_of c ++ escaped s
unfolding escaped
escaped-escape_of c s = ap (λ t. t ++ escaped s) (sym (escape_of-spelled c))

pub shown-positive_zero : (n : ℕ) → positive_zero n ≡ shown n
unfolding positive_zero shown
shown-positive_zero n = refl

pub shown-kept : (n : ℕ) → positive_zero n ≡ n → shown n ≡ n
shown-kept n h = sym (shown-positive_zero n) ∙ h
