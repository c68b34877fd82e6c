-- ===== src/Json/RoundTrip.antt =====
-- src/json.c: json_decode on the text of a value.
use luafan.Common.{
  length, ltb, ◌<◌, true, ℕ, zero, suc, ◌≡◌, refl, ap, ◌∙◌, List, [], ◌∷◌, ◌++◌, append-nil, arith,
}
use luafan.Json.Chars.{next_char}
use luafan.Json.Value.{
  Value, Items, Fields, nil, null, boolean, number, text, array, object, no_items, item, no_fields,
  field, ok,
}
use luafan.Json.Decode.{
  Env, kind, parse_number, parse_value, value, json_decode, decode_fuel, outcome, finish, of_number,
}
use luafan.Json.Print.{print}
use luafan.Json.Spelled.{shown-kept}
use luafan.Json.Plain.{IsPlain, FieldsPlain, number_start-kind}
use luafan.Json.Fields.{set_all-empty, NoneNil}
use luafan.Json.Starts.{parse_number-format, print-Starts, skip_space-Starts}
use luafan.Json.Reads.{
  ReadsValue, ReadsItems, ReadsMore, ReadsFields, ReadsMoreFields, parse_array-item,
  parse_object-field,
}
use luafan.Json.Rounds.{
  parse_value-null, parse_value-boolean, parse_value-text, parse_value-number, parse_value-array,
  parse_value-object, parse_array-end, after_item-end, after_item-more, parse_object-end,
  after_field-end, after_field-more,
}

module _ (env : Env) (format : ℕ → List ℕ) where
  FieldsPlain-NoneNil : (fs : Fields) → FieldsPlain env format fs → NoneNil fs
  unfolding IsPlain
  FieldsPlain-NoneNil no_fields h = tt
  FieldsPlain-NoneNil (field k v fs) h = (h.0, FieldsPlain-NoneNil fs h.2)

  reads_number : (n : ℕ) → ReadsValue env format (number n)
  unfolding print IsPlain
  reads_number n h zero rest g e = absurd (omega arith)
  reads_number n h (suc f) rest g e =
      let k = number_start-kind h.first h.starts_number in
      rw (shown-kept n h.is_positive_zero)
        (number_at h.first h.others h.is_text k ∙ parse_number-format env format n rest h e)
    where
      number_at :
          (c : ℕ) (others : List ℕ)
          → format n ≡ c ∷ others
          → kind c ≡ of_number
          → parse_value env (suc f) (format n ++ rest) ≡ parse_number env (format n ++ rest)
      number_at c others is_text k = rw is_text (parse_value-number env f c (others ++ rest) k)

  mutual
    unfolding parse_value print IsPlain

    reads : (v : Value) → ReadsValue env format v
    reads nil h zero rest g e = absurd (omega arith)
    reads nil h (suc f) rest g e = parse_value-null env f rest nil e h
    reads null h zero rest g e = absurd (omega arith)
    reads null h (suc f) rest g e = parse_value-null env f rest null e h
    reads (boolean b) h zero rest g e = absurd (omega arith)
    reads (boolean b) h (suc f) rest g e = parse_value-boolean env f rest b e
    reads (number n) h f rest g e = reads_number n h f rest g e
    reads (text s) h zero rest g e = absurd (omega arith)
    reads (text s) h (suc f) rest g e = parse_value-text env f s rest
    reads (array xs) h zero rest g e = absurd (omega arith)
    reads (array xs) h (suc f) rest g e =
        parse_value-array env f _ rest xs (reads_items xs h f rest (omega arith))
    reads (object fs) h zero rest g e = absurd (omega arith)
    reads (object fs) h (suc f) rest g e = parse_value-object env f _ rest fs (
        reads_fields fs h.1 no_fields f rest (omega arith)
        ∙ ap (λ t. ok t rest) (set_all-empty fs h.0 (FieldsPlain-NoneNil fs h.1)))

    reads_items : (xs : Items) → ReadsItems env format xs
    reads_items no_items h zero rest g = absurd (omega arith)
    reads_items no_items h (suc f) rest g = parse_array-end env f rest
    reads_items (item v xs) h f rest g =
        parse_array-item env format v xs (reads v) (reads_more xs) h.0 h.1 f rest g

    reads_more : (xs : Items) → ReadsMore env format xs
    reads_more no_items h v zero rest g = absurd (omega arith)
    reads_more no_items h v (suc f) rest g = after_item-end env f v rest
    reads_more (item w xs) h v zero rest g = absurd (omega arith)
    reads_more (item w xs) h v (suc f) rest g =
        after_item-more env f v w xs _ rest
          (parse_array-item env format w xs (reads w) (reads_more xs) h.0 h.1 f rest (omega arith))

    reads_fields : (fs : Fields) → ReadsFields env format fs
    reads_fields no_fields h acc zero rest g = absurd (omega arith)
    reads_fields no_fields h acc (suc f) rest g = parse_object-end env f acc rest
    reads_fields (field k v fs) h acc f rest g =
        parse_object-field env format k v fs (reads v) (reads_more_fields fs) h.1 h.2 acc f rest g

    reads_more_fields : (fs : Fields) → ReadsMoreFields env format fs
    reads_more_fields no_fields h acc zero rest g = absurd (omega arith)
    reads_more_fields no_fields h acc (suc f) rest g = after_field-end env f acc rest
    reads_more_fields (field k v fs) h acc zero rest g = absurd (omega arith)
    reads_more_fields (field k v fs) h acc (suc f) rest g =
        after_field-more env f acc _
        ∙ parse_object-field env format k v fs (reads v) (reads_more_fields fs) h.1 h.2 acc f rest
            (omega arith)

  whole : (s : List ℕ) (v : Value) → outcome s (ok v []) ≡ value v
  unfolding finish next_char
  whole s v = refl

  -- json_decode gives back the value whose text it is given.
  pub json_decode-print :
      (v : Value)
      → IsPlain env format v
      → length (print format v) < 2147483647
      → json_decode env (text (print format v)) ≡ value v
  unfolding json_decode
  json_decode-print v h short =
      let admitted : ltb (length (print format v)) 2147483647 ≡ true = ground arith in
      let printed = print format v in
      let start = print-Starts env format v h in
      let all : printed ++ [] ≡ printed = append-nil printed in
      let skipped = rw all at (skip_space-Starts env format printed [] start) in
      let read =
        rw all at (reads v h (decode_fuel printed) [] (unfold decode_fuel in omega arith) tt) in
      rw (admitted, skipped, read) (whole printed v)
