-- ===== src/Json/Text.antt =====
-- src/json.c: parse_string, one round of its loop at a time.
use luafan.Common.{
  ℕ, zero, suc, ◌+◌, ◌-◌, ◌*◌, ◌%◌, ◌^◌, ◌&&◌, Option, none, some, List, [], ◌∷◌, ◌++◌, ltb, ◌==◌,
  if◌then◌else◌, length,
}
use luafan.Json.Chars.{quote, backslash, hex4, all_hex, is_high_surrogate_hex, codepoint_to_utf8}
use luafan.Json.Value.{
  Message, expected_string, control_character, expected_closing_quote, invalid_unicode_escape,
  invalid_codepoint, invalid_escape, Result, ok, failed, out_of_fuel,
}

-- What a round does: it adds bytes and goes on behind, meets the closing quote, or raises an error.
pub data Step : Type 0 where
  adds : List ℕ → List ℕ → Step
  closes : List ℕ → Step
  raises : Message → List ℕ → Step

-- `\uYYYY` behind a high surrogate, of whatever value
unfoldable pub second_unit : List ℕ → Option (ℕ × List ℕ)
second_unit (s ∷ u ∷ a ∷ b ∷ c ∷ d ∷ rest) =
    if (s == backslash) && (u == 117) && all_hex a b c d then some (hex4 a b c d, rest) else none
second_unit _ = none

-- in `unsigned int`
unfoldable pub pair_value : ℕ → ℕ → ℕ
pair_value n1 n2 =
    ((n1 + 2 ^ 32 - 55296) % 2 ^ 32 * 1024 % 2 ^ 32 + (n2 + 2 ^ 32 - 56320) % 2 ^ 32 + 65536)
    % 2 ^ 32

-- `at` starts at the backslash, and `rest` is behind the escape.
unfoldable pub add_codepoint : List ℕ → ℕ → List ℕ → Step
add_codepoint at n rest = elim (codepoint_to_utf8 n) [
  | some out ↦ adds out rest
  | none ↦ raises invalid_codepoint at
]

abbrev one_unit : List ℕ → ℕ → ℕ → ℕ → ℕ → List ℕ → Step
one_unit at a b c d rest =
    if all_hex a b c d
    then add_codepoint at (hex4 a b c d) rest
    else raises invalid_unicode_escape at

abbrev two_units : List ℕ → ℕ → ℕ → ℕ → ℕ → List ℕ → Step
two_units at a b c d rest = elim (second_unit rest) [
  | some (n2, behind) ↦ add_codepoint at (pair_value (hex4 a b c d) n2) behind
  | none ↦ one_unit at a b c d rest
]

unfoldable pub unicode_escape : List ℕ → List ℕ → Step
unicode_escape at (a ∷ b ∷ c ∷ d ∷ rest) =
    if is_high_surrogate_hex a b c d then two_units at a b c d rest else one_unit at a b c d rest
unicode_escape at _ = raises invalid_unicode_escape at

-- the `switch` over the other escapes
unfoldable pub unescaped : ℕ → Option ℕ
unescaped c =
    if c == backslash
    then some 92
    else if c == 47
    then some 47
    else if c == quote
    then some 34
    else if c == 98
    then some 8
    else if c == 102
    then some 12
    else if c == 110
    then some 10
    else if c == 114
    then some 13
    else if c == 116
    then some 9
    else none

abbrev pub simple_escape : List ℕ → ℕ → List ℕ → Step
simple_escape at c rest = elim (unescaped c) [
  | some out ↦ adds (out ∷ []) rest
  | none ↦ raises (invalid_escape c) at
]

-- `start` is the text from the opening quote on.
unfoldable pub escape : List ℕ → List ℕ → List ℕ → Step
escape start at [] = raises expected_closing_quote start
escape start at (c ∷ rest) = if c == 117 then unicode_escape at rest else simple_escape at c rest

unfoldable pub string_round : List ℕ → ℕ → List ℕ → Step
string_round start x rest =
    if ltb x 32
    then raises control_character (x ∷ rest)
    else if x == backslash
    then escape start (x ∷ rest) rest
    else if x == quote
    then closes rest
    else adds (x ∷ []) rest

-- The loop; `out` is what the Lua buffer holds. A round takes at least a byte.
unfoldable pub string_loop : List ℕ → ℕ → List ℕ → List ℕ → Result (List ℕ)
string_loop start n out [] = failed expected_closing_quote start
string_loop start zero out (x ∷ rest) = out_of_fuel
string_loop start (suc n) out (x ∷ rest) = elim (string_round start x rest) [
  | adds bytes behind ↦ string_loop start n (out ++ bytes) behind
  | closes behind ↦ ok out behind
  | raises m at ↦ failed m at
]

unfoldable pub parse_string : List ℕ → Result (List ℕ)
parse_string [] = failed expected_string []
parse_string (c ∷ rest) =
    if c == quote
    then string_loop (c ∷ rest) (length rest) [] rest
    else failed expected_string (c ∷ rest)
