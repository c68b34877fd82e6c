-- ===== src/Json/Utf8.antt =====
-- src/json.c: the bytes of a code point against the definition of UTF-8, and surrogate pairs.
use luafan.Common.{
  ℕ, ◌+◌, ◌-◌, ◌*◌, ◌/◌, ◌%◌, ◌^◌, ◌≤◌, ◌<◌, ◌≡◌, refl, ap, ◌∙◌, true, some, List, [], ◌∷◌, bit_or,
  leb, Bool-cases, inl, inr, arith,
}
use luafan.Common.Bits.{bit_or_fields, bit_and_mask}
use luafan.Json.Chars.{continuation, codepoint_to_utf8}
use luafan.Json.Text.{pair_value}

-- A byte that follows the first has 10 as its highest bits.
abbrev pub Follows : ℕ → Type 0
Follows b = (128 ≤ b) × (b < 192)

-- The bytes are the UTF-8 encoding of the code point: the first byte is in the range that says how
-- many bytes there are, the others follow, their low bits are the code point's, and the code point
-- needs so many bytes.
unfoldable pub IsUtf8 : List ℕ → ℕ → Type 0
IsUtf8 (a ∷ []) n = (a < 128) × (n ≡ a)
IsUtf8 (a ∷ b ∷ []) n =
    (192 ≤ a) × (a < 224) × Follows b × (128 ≤ n) × (n ≡ (a - 192) * 64 + (b - 128))
IsUtf8 (a ∷ b ∷ c ∷ []) n =
    (224 ≤ a)
    × (a < 240)
    × Follows b
    × Follows c
    × (2048 ≤ n)
    × (n ≡ ((a - 224) * 64 + (b - 128)) * 64 + (c - 128))
IsUtf8 (a ∷ b ∷ c ∷ d ∷ []) n =
    (240 ≤ a)
    × (a < 248)
    × Follows b
    × Follows c
    × Follows d
    × (65536 ≤ n)
    × (n ≡ (((a - 240) * 64 + (b - 128)) * 64 + (c - 128)) * 64 + (d - 128))
IsUtf8 _ n = ⊥

continuation_lem : (s n : ℕ) → continuation s n ≡ 128 + n / 2 ^ s % 64
continuation_lem s n =
    ap (bit_or 128) (bit_and_mask 6 (n / 2 ^ s)) ∙ bit_or_fields 6 2 (n / 2 ^ s % 64) (omega arith)

last : (n : ℕ) → continuation 0 n ≡ 128 + n % 64
last n = continuation_lem 0 n ∙ omega arith

-- For a code point up to 0x10ffff, codepoint_to_utf8 gives the bytes that encode it by the bit
-- patterns of UTF-8, in the shortest form.
pub codepoint_to_utf8_lem :
    (n : ℕ) → n ≤ 1114111 → (bs : List ℕ) × (codepoint_to_utf8 n ≡ some bs) × IsUtf8 bs n
unfolding codepoint_to_utf8 IsUtf8
codepoint_to_utf8_lem n h = elim (Bool-cases (leb n 127)) [
  | inl e ↦ (n ∷ [], rw e refl, (ground arith, refl))
  | inr e ↦
      (let above : 128 ≤ n = ground arith in
        elim (Bool-cases (leb n 2047)) [
          | inl g ↦
              let small : n < 2048 = ground arith in
              (
                (192 + n / 64) ∷ (128 + n % 64) ∷ [],
                rw (e, g, bit_or_fields 5 6 (n / 64) (omega arith), last n) refl,
                (omega arith, omega arith, (omega arith, omega arith), above, omega arith),
              )
          | inr g ↦
              (let above_2 : 2048 ≤ n = ground arith in
                elim (Bool-cases (leb n 65535)) [
                  | inl i ↦
                      let small : n < 65536 = ground arith in
                      (
                        (224 + n / 4096) ∷ (128 + n / 64 % 64) ∷ (128 + n % 64) ∷ [],
                        rw
                            (
                              e,
                              g,
                              i,
                              bit_or_fields 4 14 (n / 4096) (omega arith),
                              continuation_lem 6 n,
                              last n,
                            )
                            refl,
                        (
                          omega arith,
                          omega arith,
                          (omega arith, omega arith),
                          (omega arith, omega arith),
                          above_2,
                          omega arith,
                        ),
                      )
                  | inr i ↦
                      let above_3 : 65536 ≤ n = ground arith in
                      let most : leb n 1114111 ≡ true = ground arith in
                      (
                        (240 + n / 262144)
                            ∷ (128 + n / 4096 % 64)
                            ∷ (128 + n / 64 % 64)
                            ∷ (128 + n % 64)
                            ∷ [],
                        rw
                            (
                              e,
                              g,
                              i,
                              most,
                              bit_or_fields 3 30 (n / 262144) (omega arith),
                              continuation_lem 12 n,
                              continuation_lem 6 n,
                              last n,
                            )
                            refl,
                        (
                          omega arith,
                          omega arith,
                          (omega arith, omega arith),
                          (omega arith, omega arith),
                          (omega arith, omega arith),
                          above_3,
                          omega arith,
                        ),
                      )
                ])
        ])
]

-- The units of UTF-16 for a code point from 0x10000 on.
abbrev pub high_surrogate : ℕ → ℕ
high_surrogate cp = 55296 + (cp - 65536) / 1024

abbrev pub low_surrogate : ℕ → ℕ
low_surrogate cp = 56320 + (cp - 65536) % 1024

-- From the two surrogates that UTF-16 has for a code point from 0x10000 up to 0x10ffff, pair_value
-- makes the code point.
pub pair_value-surrogates :
    (cp : ℕ) → 65536 ≤ cp → cp ≤ 1114111 → pair_value (high_surrogate cp) (low_surrogate cp) ≡ cp
unfolding pair_value
pair_value-surrogates cp low high = omega arith
