-- ===== src/Json/Chars.antt =====
-- src/json.c: the bytes that the text is made of, and the tests on them.
use luafan.Common.{
  ℕ, ◌+◌, ◌-◌, ◌*◌, ◌/◌, ◌%◌, ◌^◌, bit_and, bit_or, Bool, not, ◌&&◌, ◌||◌, Option, none, some, List,
  [], ◌∷◌, ltb, leb, ◌==◌, if◌then◌else◌,
}

abbrev pub quote : ℕ
quote = 34

abbrev pub backslash : ℕ
backslash = 92

abbrev pub comma : ℕ
comma = 44

abbrev pub colon : ℕ
colon = 58

abbrev pub open_bracket : ℕ
open_bracket = 91

abbrev pub close_bracket : ℕ
close_bracket = 93

abbrev pub open_brace : ℕ
open_brace = 123

abbrev pub close_brace : ℕ
close_brace = 125

-- ' ', '\t', '\r' and '\n'
unfoldable pub is_space : ℕ → Bool
is_space c = (c == 32) || (c == 9) || (c == 13) || (c == 10)

unfoldable pub is_delim : ℕ → Bool
is_delim c = is_space c || (c == close_bracket) || (c == close_brace) || (c == comma)

-- The index is kept as the text from there on; past the end nothing is left.
unfoldable pub next_char : (ℕ → Bool) → Bool → List ℕ → List ℕ
next_char pred negate [] = []
next_char pred negate (c ∷ rest) =
    if (if negate then not (pred c) else pred c) then c ∷ rest else next_char pred negate rest

-- `lo <= c && c <= hi`
abbrev between : ℕ → ℕ → ℕ → Bool
between lo hi c = leb lo c && leb c hi

-- '0' to '9', 'a' to 'f', 'A' to 'F'
unfoldable pub is_hex : ℕ → Bool
is_hex c = between 48 57 c || between 97 102 c || between 65 70 c

abbrev hex_digit : ℕ → ℕ
hex_digit c =
    if between 48 57 c
    then c - 48
    else if between 97 102 c
    then c - 97 + 10
    else if between 65 70 c
    then c - 65 + 10
    else 0

-- One round of the loop: `n <<= 4`, then `n |=` the digit.
abbrev with_digit : ℕ → ℕ → ℕ
with_digit n c = bit_or (n * 2 ^ 4 % 2 ^ 32) (hex_digit c)

unfoldable pub hex4 : ℕ → ℕ → ℕ → ℕ → ℕ
hex4 a b c d = with_digit (with_digit (with_digit (with_digit 0 a) b) c) d

abbrev pub all_hex : ℕ → ℕ → ℕ → ℕ → Bool
all_hex a b c d = is_hex a && is_hex b && is_hex c && is_hex d

-- 'd' or 'D', then '8', '9', 'a', 'b', 'A' or 'B'
unfoldable pub is_high_surrogate_hex : ℕ → ℕ → ℕ → ℕ → Bool
is_high_surrogate_hex a b c d =
    all_hex a b c d
    && ((a == 100) || (a == 68))
    && (between 56 57 b || between 97 98 b || between 65 66 b)

-- The low six bits of `n >> s`, as a continuation byte.
abbrev pub continuation : ℕ → ℕ → ℕ
continuation s n = bit_or 128 (bit_and (n / 2 ^ s) 63)

-- none where the code raises "invalid unicode codepoint"
unfoldable pub codepoint_to_utf8 : ℕ → Option (List ℕ)
codepoint_to_utf8 n =
    if leb n 127
    then some (n ∷ [])
    else if leb n 2047
    then some (bit_or 192 (n / 2 ^ 6) ∷ continuation 0 n ∷ [])
    else if leb n 65535
    then some (bit_or 224 (n / 2 ^ 12) ∷ continuation 6 n ∷ continuation 0 n ∷ [])
    else if leb n 1114111
    then some
        (bit_or 240 (n / 2 ^ 18) ∷ continuation 12 n ∷ continuation 6 n ∷ continuation 0 n ∷ [])
    else none

-- `%x` of a digit
abbrev pub hex_char : ℕ → ℕ
hex_char d = if ltb d 10 then 48 + d else 87 + d

-- What encode_string writes for a byte; the last two cases are `\u%04x` and the byte itself.
unfoldable pub escape_of : ℕ → List ℕ
escape_of c =
    if c == backslash
    then backslash ∷ backslash ∷ []
    else if c == quote
    then backslash ∷ quote ∷ []
    else if c == 8
    then backslash ∷ 98 ∷ []
    else if c == 12
    then backslash ∷ 102 ∷ []
    else if c == 10
    then backslash ∷ 110 ∷ []
    else if c == 13
    then backslash ∷ 114 ∷ []
    else if c == 9
    then backslash ∷ 116 ∷ []
    else if ltb c 32
    then backslash
      ∷ 117
      ∷ hex_char (c / 2 ^ 12 % 16)
      ∷ hex_char (c / 2 ^ 8 % 16)
      ∷ hex_char (c / 2 ^ 4 % 16)
      ∷ hex_char (c % 16)
      ∷ []
    else c ∷ []
