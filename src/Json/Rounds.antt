-- ===== src/Json/Rounds.antt =====
-- src/json.c: one call of the parser on the beginning of a printed value.
use luafan.Common.{ℕ, suc, ◌≡◌, refl, ap, ◌∙◌, Bool, true, false, List, ◌∷◌, ◌++◌, if◌then◌else◌}
use luafan.Json.Chars.{
  is_space, is_delim, next_char, comma, close_bracket, close_brace, open_bracket, open_brace,
}
use luafan.Json.Value.{
  Value, Items, Fields, boolean, text, array, object, no_items, item, no_fields, ok, same_text,
}
use luafan.Json.Text.{parse_string}
use luafan.Json.Decode.{
  Env, kind, starts, separator, parse_number, parse_literal, parse_value, parse_array, parse_object,
  after_item, after_field, true_text, false_text, null_text, of_string, of_number,
}
use luafan.Json.Print.{quoted}
use luafan.Json.Strings.{parse_string-quoted}
use luafan.Json.Plain.{EndsWord, to_delim-word, before-word}

module _ (env : Env) where
  -- A word of letters, up to the byte that ends it.
  module _ (rest : List ℕ) (e : EndsWord rest) where
    pub parse_literal-true : parse_literal env (true_text ++ rest) ≡ ok (boolean true) rest
    unfolding parse_literal same_text is_delim is_space
    parse_literal-true =
        let left = to_delim-word true_text rest (refl, (refl, (refl, (refl, tt)))) e in
        rw (left, before-word true_text rest) refl

    pub parse_literal-false : parse_literal env (false_text ++ rest) ≡ ok (boolean false) rest
    unfolding parse_literal same_text is_delim is_space
    parse_literal-false =
        let left = to_delim-word false_text rest (refl, (refl, (refl, (refl, (refl, tt))))) e in
        rw (left, before-word false_text rest) refl

    pub parse_literal-null : parse_literal env (null_text ++ rest) ≡ ok env.null_value rest
    unfolding parse_literal same_text is_delim is_space
    parse_literal-null =
        let left = to_delim-word null_text rest (refl, (refl, (refl, (refl, tt)))) e in
        rw (left, before-word null_text rest) refl

  pub parse_value-null :
      (f : ℕ) (rest : List ℕ) (v : Value)
      → EndsWord rest
      → env.null_value ≡ v
      → parse_value env (suc f) (null_text ++ rest) ≡ ok v rest
  unfolding parse_value kind
  parse_value-null f rest v e h = parse_literal-null rest e ∙ ap (λ w. ok w rest) h

  pub parse_value-boolean :
      (f : ℕ) (rest : List ℕ) (b : Bool)
      → EndsWord rest
      → parse_value env (suc f) ((if b then true_text else false_text) ++ rest)
        ≡ ok (boolean b) rest
  unfolding parse_value kind
  parse_value-boolean f rest true e = parse_literal-true rest e
  parse_value-boolean f rest false e = parse_literal-false rest e

  pub parse_value-string :
      (f c : ℕ) (rest bytes left : List ℕ)
      → kind c ≡ of_string
      → parse_string (c ∷ rest) ≡ ok bytes left
      → parse_value env (suc f) (c ∷ rest) ≡ ok (text bytes) left
  unfolding parse_value
  parse_value-string f c rest bytes left k h = rw (k, h, parse_value) refl

  pub parse_value-text :
      (f : ℕ) (s rest : List ℕ) → parse_value env (suc f) (quoted s ++ rest) ≡ ok (text s) rest
  unfolding quoted kind
  parse_value-text f s rest = parse_value-string f _ _ s rest refl (parse_string-quoted s rest)

  pub parse_value-number :
      (f c : ℕ) (rest : List ℕ)
      → kind c ≡ of_number
      → parse_value env (suc f) (c ∷ rest) ≡ parse_number env (c ∷ rest)
  unfolding parse_value
  parse_value-number f c rest k = rw (k, parse_value) refl

  pub parse_value-array :
      (f : ℕ) (s rest : List ℕ) (xs : Items)
      → parse_array env f s ≡ ok xs rest
      → parse_value env (suc f) (open_bracket ∷ s) ≡ ok (array xs) rest
  unfolding parse_value kind
  parse_value-array f s rest xs h = rw h refl

  pub parse_value-object :
      (f : ℕ) (s rest : List ℕ) (fs : Fields)
      → parse_object env f no_fields s ≡ ok fs rest
      → parse_value env (suc f) (open_brace ∷ s) ≡ ok (object fs) rest
  unfolding parse_value kind
  parse_value-object f s rest fs h = rw h refl

  pub parse_array-end :
      (f : ℕ) (rest : List ℕ) → parse_array env (suc f) (close_bracket ∷ rest) ≡ ok no_items rest
  unfolding parse_value starts next_char is_space
  parse_array-end f rest = refl

  pub after_item-end :
      (f : ℕ) (v : Value) (rest : List ℕ)
      → after_item env (suc f) v (close_bracket ∷ rest) ≡ ok (item v no_items) rest
  unfolding parse_value separator
  after_item-end f v rest = refl

  pub after_item-more :
      (f : ℕ) (v w : Value) (xs : Items) (s rest : List ℕ)
      → parse_array env f s ≡ ok (item w xs) rest
      → after_item env (suc f) v (comma ∷ s) ≡ ok (item v (item w xs)) rest
  unfolding parse_value separator
  after_item-more f v w xs s rest h = rw h refl

  pub parse_object-end :
      (f : ℕ) (acc : Fields) (rest : List ℕ)
      → parse_object env (suc f) acc (close_brace ∷ rest) ≡ ok acc rest
  unfolding parse_value starts next_char is_space
  parse_object-end f acc rest = refl

  pub after_field-end :
      (f : ℕ) (acc : Fields) (rest : List ℕ)
      → after_field env (suc f) acc (close_brace ∷ rest) ≡ ok acc rest
  unfolding parse_value separator
  after_field-end f acc rest = refl

  pub after_field-more :
      (f : ℕ) (acc : Fields) (s : List ℕ)
      → after_field env (suc f) acc (comma ∷ s) ≡ parse_object env f acc s
  unfolding parse_value separator
  after_field-more f acc s = refl
