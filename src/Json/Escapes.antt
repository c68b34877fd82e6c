-- ===== src/Json/Escapes.antt =====
-- src/json.c: parse_string reads back what encode_string writes.
use luafan.Common.{
  ℕ, ◌/◌, ◌%◌, ◌^◌, ◌<◌, ◌≡◌, refl, Bool, true, false, ◌&&◌, List, [], ◌∷◌, ◌++◌, ◌==◌, ltb, leb,
  if◌then◌else◌, ltb→lt, ==→eq, passes, passes_at, Bool-cases, inl, inr, arith,
}
use luafan.Json.Chars.{
  backslash, is_hex, hex4, all_hex, hex_char, is_high_surrogate_hex, codepoint_to_utf8, escape_of,
}
use luafan.Json.Text.{adds, add_codepoint, unicode_escape, unescaped, escape, string_round}

-- A byte's escape is read in one round, whatever follows.
abbrev pub RoundTrip : List ℕ → ℕ → List ℕ → Type 0
RoundTrip start c rest =
    (x : ℕ) × (tail : List ℕ) × (escape_of c ++ rest ≡ x ∷ tail)
    × (string_round start x tail ≡ adds (c ∷ []) rest)

abbrev control_test : ℕ → Bool
control_test c =
    all_hex 48 48 (hex_char (c / 2 ^ 4 % 16)) (hex_char (c % 16))
    && (hex4 48 48 (hex_char (c / 2 ^ 4 % 16)) (hex_char (c % 16)) == c)

control_table : passes control_test 32 ≡ true
unfolding passes is_hex hex4
control_table = refl

and-left : (a b : Bool) → (a && b) ≡ true → a ≡ true
and-left true b h = refl
and-left false b h = cc

and-right : (a b : Bool) → (a && b) ≡ true → b ≡ true
and-right true b h = h
and-right false b h = cc

and-false : (b : Bool) → (b && false) ≡ false
and-false true = refl
and-false false = refl

-- no surrogate starts with '0'
zero-not_high : (a b : ℕ) → is_high_surrogate_hex 48 48 a b ≡ false
unfolding is_high_surrogate_hex
zero-not_high a b = and-false (all_hex 48 48 a b && false)

add_low :
    (at : List ℕ) (c : ℕ) (rest : List ℕ)
    → leb c 127 ≡ true
    → add_codepoint at c rest ≡ adds (c ∷ []) rest
unfolding add_codepoint codepoint_to_utf8
add_low at c rest low = rw (low, add_codepoint) refl

low_unit :
    (at : List ℕ) (a b c : ℕ) (rest : List ℕ)
    → all_hex 48 48 a b ≡ true
    → hex4 48 48 a b ≡ c
    → leb c 127 ≡ true
    → unicode_escape at (48 ∷ 48 ∷ a ∷ b ∷ rest) ≡ adds (c ∷ []) rest
unfolding unicode_escape
low_unit at a b c rest hex same low = rw (zero-not_high a b, hex, same) (add_low at c rest low)

control-RoundTrip :
    (start : List ℕ) (c : ℕ) (rest : List ℕ)
    → c < 32
    → string_round start backslash
        (117 ∷ 48 ∷ 48 ∷ hex_char (c / 2 ^ 4 % 16) ∷ hex_char (c % 16) ∷ rest)
      ≡ adds (c ∷ []) rest
unfolding string_round escape
control-RoundTrip start c rest h =
    let test = passes_at control_test 32 control_table c h in
    low_unit _ _ _ c rest (and-left _ _ test) (==→eq _ c (and-right _ _ test)) (ground arith)

plain_round :
    (start : List ℕ) (c : ℕ) (rest : List ℕ)
    → ltb c 32 ≡ false
    → (c == 92) ≡ false
    → (c == 34) ≡ false
    → string_round start c rest ≡ adds (c ∷ []) rest
unfolding string_round
plain_round start c rest h e g = rw (h, e, g) refl

module _ (start rest : List ℕ) where
  at_byte : (k c : ℕ) → (c == k) ≡ true → RoundTrip start k rest → RoundTrip start c rest
  at_byte k c e t = let same = ==→eq c k e in rw same t

  -- The bytes that have no escape of their own.
  other-RoundTrip :
      (c : ℕ)
      → (c == 92) ≡ false
      → (c == 34) ≡ false
      → escape_of c ≡ (
          if ltb c 32
          then 92
            ∷ 117
            ∷ hex_char (c / 2 ^ 12 % 16)
            ∷ hex_char (c / 2 ^ 8 % 16)
            ∷ hex_char (c / 2 ^ 4 % 16)
            ∷ hex_char (c % 16)
            ∷ []
          else c ∷ [])
      → RoundTrip start c rest
  other-RoundTrip c e g same = elim (Bool-cases (ltb c 32)) [
    | inl low ↦
        let h = ltb→lt c 32 low in
        let third : c / 2 ^ 8 % 16 ≡ 0 = omega arith in
        let fourth : c / 2 ^ 12 % 16 ≡ 0 = omega arith in
        rw (same, low, third, fourth) (92, _, refl, control-RoundTrip start c rest h)
    | inr high ↦ rw (same, high) (c, rest, refl, plain_round start c rest high e g)
  ]

  pub escape-RoundTrip : (c : ℕ) → RoundTrip start c rest
  unfolding escape_of string_round escape unescaped
  escape-RoundTrip c = elim (Bool-cases (c == 92)) [
    | inl e ↦ at_byte 92 c e (92, 92 ∷ rest, refl, refl)
    | inr e ↦ elim (Bool-cases (c == 34)) [
      | inl g ↦ at_byte 34 c g (92, 34 ∷ rest, refl, refl)
      | inr g ↦ elim (Bool-cases (c == 8)) [
        | inl h ↦ at_byte 8 c h (92, 98 ∷ rest, refl, refl)
        | inr h ↦ elim (Bool-cases (c == 12)) [
          | inl i ↦ at_byte 12 c i (92, 102 ∷ rest, refl, refl)
          | inr i ↦ elim (Bool-cases (c == 10)) [
            | inl j ↦ at_byte 10 c j (92, 110 ∷ rest, refl, refl)
            | inr j ↦ elim (Bool-cases (c == 13)) [
              | inl k ↦ at_byte 13 c k (92, 114 ∷ rest, refl, refl)
              | inr k ↦ elim (Bool-cases (c == 9)) [
                | inl l ↦ at_byte 9 c l (92, 116 ∷ rest, refl, refl)
                | inr l ↦ other-RoundTrip c e g (rw (e, g, h, i, j, k, l) refl)
              ]
            ]
          ]
        ]
      ]
    ]
  ]
