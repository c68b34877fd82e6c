-- ===== src/Json/Decode.antt =====
-- src/json.c: the recursive descent of json_decode.
use luafan.Common.{
  ℕ, ltb, zero, suc, ◌+◌, ◌-◌, ◌*◌, ◌^◌, Bool, true, false, ◌&&◌, ◌||◌, none, some, List, [], ◌∷◌,
  leb, ◌==◌, if◌then◌else◌, length, take,
}
use luafan.Json.Chars.{
  quote, comma, colon, open_bracket, close_bracket, open_brace, close_brace, is_space, is_delim,
  next_char,
}
use luafan.Json.Value.{
  Value, Items, Fields, Message, boolean, number, text, array, object, no_items, item, no_fields,
  expected_array_end, expected_key, expected_colon, expected_object_end, trailing_garbage,
  invalid_number, invalid_literal, unexpected_character, Result, ok, failed, out_of_fuel, bind,
  same_text, set_field,
}
use luafan.Json.Text.{parse_string}

-- `strtod` of the C library: the bits of the number and the bytes it has read. `null_value` is the
-- field `null` of the module, nil or the sentinel (json_enable_null).
pub record Env : Type 0 where
  pub strtod : List ℕ → ℕ × ℕ
  pub null_value : Value

-- `n += 0.0` where `n == 0.0`: the sign of a zero goes.
unfoldable pub positive_zero : ℕ → ℕ
positive_zero n = if n == 2 ^ 63 then 0 else n

abbrev pub skip_space : List ℕ → List ℕ
skip_space = next_char is_space true

abbrev pub to_delim : List ℕ → List ℕ
to_delim = next_char is_delim false

-- the bytes of `s` before its part `rest`
abbrev pub before : List ℕ → List ℕ → List ℕ
before s rest = take (length s - length rest) s

abbrev pub true_text : List ℕ
true_text = 116 ∷ 114 ∷ 117 ∷ 101 ∷ []

abbrev pub false_text : List ℕ
false_text = 102 ∷ 97 ∷ 108 ∷ 115 ∷ 101 ∷ []

abbrev pub null_text : List ℕ
null_text = 110 ∷ 117 ∷ 108 ∷ 108 ∷ []

-- The first byte of a value selects its parser.
pub data Kind : Type 0 where
  of_string of_number of_literal of_array of_object of_none : Kind

-- '0' to '9' and '-'
abbrev pub number_start : ℕ → Bool
number_start c = (leb 48 c && leb c 57) || (c == 45)

unfoldable pub kind : ℕ → Kind
kind c =
    if c == quote
    then of_string
    else if number_start c
    then of_number
    else if (c == 116) || (c == 102) || (c == 110)
    then of_literal
    else if c == open_bracket
    then of_array
    else if c == open_brace
    then of_object
    else of_none

-- After an element: the end of the list, a comma, or another byte.
pub data Separator : Type 0 where
  ends goes_on breaks : Separator

unfoldable pub separator : ℕ → ℕ → Separator
separator close c = if c == close then ends else if c == comma then goes_on else breaks

unfoldable pub starts : ℕ → List ℕ → Bool
starts c [] = false
starts c (x ∷ rest) = x == c

abbrev pub behind : List ℕ → List ℕ
behind [] = []
behind (x ∷ rest) = rest

module _ (env : Env) where
  unfoldable pub number_of : List ℕ → List ℕ → List ℕ → Result Value
  unfolding positive_zero
  number_of s rest word =
      if (env.strtod word).1 == length word
      then ok (number (positive_zero (env.strtod word).0)) rest
      else failed (invalid_number (some word)) s

  unfoldable pub parse_number : List ℕ → Result Value
  unfolding number_of
  parse_number s =
      let word = before s (to_delim s) in
      if (length word == 0) || leb 128 (length word)
      then failed (invalid_number none) s
      else number_of s (to_delim s) word

  unfoldable pub parse_literal : List ℕ → Result Value
  parse_literal s =
      let word = before s (to_delim s) in
      if same_text word true_text
      then ok (boolean true) (to_delim s)
      else if same_text word false_text
      then ok (boolean false) (to_delim s)
      else if same_text word null_text
      then ok env.null_value (to_delim s)
      else failed (invalid_literal (take 31 word)) s

  -- Each call of a function of the block costs a unit of fuel.
  unfoldable mutual
    pub parse_value : ℕ → List ℕ → Result Value
    parse_value zero s = out_of_fuel
    parse_value (suc f) [] = failed (unexpected_character none) []
    parse_value (suc f) (c ∷ rest) = elim (kind c) [
      | of_string ↦ bind (parse_string (c ∷ rest)) λ bytes left. ok (text bytes) left
      | of_number ↦ parse_number (c ∷ rest)
      | of_literal ↦ parse_literal (c ∷ rest)
      | of_array ↦ bind (parse_array f rest) λ items left. ok (array items) left
      | of_object ↦ bind (parse_object f no_fields rest) λ fields left. ok (object fields) left
      | of_none ↦ failed (unexpected_character (some c)) (c ∷ rest)
    ]

    -- a round of the loop of parse_array, behind the bracket or a comma
    pub parse_array : ℕ → List ℕ → Result Items
    parse_array zero s = out_of_fuel
    parse_array (suc f) s = elim (starts close_bracket (skip_space s)) [
      | true ↦ ok no_items (behind (skip_space s))
      | false ↦ bind (parse_value f (skip_space s)) λ v left. after_item f v (skip_space left)
    ]

    pub after_item : ℕ → Value → List ℕ → Result Items
    after_item f v [] = failed expected_array_end []
    after_item zero v (c ∷ rest) = out_of_fuel
    after_item (suc f) v (c ∷ rest) = elim (separator close_bracket c) [
      | ends ↦ ok (item v no_items) rest
      | goes_on ↦ bind (parse_array f rest) λ items left. ok (item v items) left
      | breaks ↦ failed expected_array_end rest
    ]

    -- the same for parse_object, with the table so far
    pub parse_object : ℕ → Fields → List ℕ → Result Fields
    parse_object zero fs s = out_of_fuel
    parse_object (suc f) fs s = elim (starts close_brace (skip_space s)) [
      | true ↦ ok fs (behind (skip_space s))
      | false ↦ elim (starts quote (skip_space s)) [
        | true ↦ bind (parse_string (skip_space s)) λ key left. after_key f fs key (skip_space left)
        | false ↦ failed expected_key (skip_space s)
      ]
    ]

    pub after_key : ℕ → Fields → List ℕ → List ℕ → Result Fields
    after_key zero fs key s = out_of_fuel
    after_key (suc f) fs key s = elim (starts colon s) [
      | true ↦
          bind (parse_value f (skip_space (behind s)))
            λ v left. after_field f (set_field key v fs) (skip_space left)
      | false ↦ failed expected_colon s
    ]

    pub after_field : ℕ → Fields → List ℕ → Result Fields
    after_field f fs [] = failed expected_object_end []
    after_field zero fs (c ∷ rest) = out_of_fuel
    after_field (suc f) fs (c ∷ rest) = elim (separator close_brace c) [
      | ends ↦ ok fs rest
      | goes_on ↦ parse_object f fs rest
      | breaks ↦ failed expected_object_end rest
    ]

-- The line and the column of a position, both from 1: each byte before it moves the column on. Both
-- are of type int, and stay below INT_MAX on the texts that json_decode admits here.
unfoldable pub place : List ℕ → ℕ → ℕ → ℕ → ℕ × ℕ
place s zero line col = (line, col)
place [] (suc n) line col = (line, col)
place (c ∷ s) (suc n) line col =
    if c == 10 then place s n (line + 1) 1 else place s n line (col + 1)

-- What json_decode does: it returns a value or raises an error with its place, which the text of
-- `decode_error_at` states; or its argument is no string. `too_long` is for a text of INT_MAX bytes or
-- more, where the line, the column or the index of an array, which are of type int, can overflow.
pub data Decoded : Type 0 where
  value : Value → Decoded
  error : Message → ℕ × ℕ → Decoded
  no_string : Decoded
  too_long : Decoded
  no_fuel : Decoded

unfoldable pub decode_error_at : List ℕ → Message → List ℕ → Decoded
unfolding place
decode_error_at s m at = error m (place s (length s - length at) 1 1)

-- behind the value
unfoldable pub finish : List ℕ → Value → List ℕ → Decoded
unfolding decode_error_at
finish s v [] = value v
finish s v (c ∷ rest) = decode_error_at s trailing_garbage (c ∷ rest)

abbrev pub outcome : List ℕ → Result Value → Decoded
outcome s (ok v rest) = finish s v (skip_space rest)
outcome s (failed m at) = decode_error_at s m at
outcome s out_of_fuel = no_fuel

unfoldable pub decode_fuel : List ℕ → ℕ
decode_fuel s = 3 * length s + 3

unfoldable pub json_decode : Env → Value → Decoded
json_decode env (text s) =
    if ltb (length s) 2147483647
    then outcome s (parse_value env (decode_fuel s) (skip_space s))
    else too_long
json_decode env _ = no_string
