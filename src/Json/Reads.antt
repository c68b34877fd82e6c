-- ===== src/Json/Reads.antt =====
-- src/json.c: the loops of the parser on the printed parts of a value.
use luafan.Common.{
  ℕ, zero, suc, ◌+◌, ◌*◌, ◌<◌, ◌≡◌, refl, ◌∙◌, true, false, List, ◌∷◌, ◌++◌, append_assoc, length,
  length-append, arith,
}
use luafan.Json.Chars.{is_space, is_delim, quote, comma, colon, close_bracket, close_brace}
use luafan.Json.Value.{Value, Items, Fields, no_items, item, no_fields, field, ok, set_field}
use luafan.Json.Text.{parse_string}
use luafan.Json.Decode.{
  Env, skip_space, parse_value, parse_array, after_item, parse_object, after_key, after_field,
  starts,
}
use luafan.Json.Print.{
  print, print_items, print_more_items, print_fields, print_more_fields, quoted,
}
use luafan.Json.Strings.{parse_string-quoted}
use luafan.Json.Plain.{EndsWord, IsPlain, ArePlain, FieldsPlain, skip_space-none}
use luafan.Json.Starts.{
  print-Starts, skip_space-Starts, starts-Starts, skip_space-quoted, starts-quoted, colon-no_space,
}

abbrev pub set_all : Fields → Fields → Fields
set_all acc no_fields = acc
set_all acc (field k v fs) = set_all (set_field k v acc) fs

module _ (env : Env) (format : ℕ → List ℕ) where
  -- A round of each loop, from what its parts return.
  parse_array-next :
      (f : ℕ) (s left : List ℕ) (v : Value)
      → starts close_bracket (skip_space s) ≡ false
      → parse_value env f (skip_space s) ≡ ok v left
      → parse_array env (suc f) s ≡ after_item env f v (skip_space left)
  unfolding parse_value
  parse_array-next f s left v more read = rw (more, read, parse_array) refl

  after_key-next :
      (f : ℕ) (acc : Fields) (k s left : List ℕ) (v : Value)
      → parse_value env f (skip_space s) ≡ ok v left
      → after_key env (suc f) acc k (colon ∷ s)
        ≡ after_field env f (set_field k v acc) (skip_space left)
  unfolding parse_value starts
  after_key-next f acc k s left v read = rw read refl

  parse_object-next :
      (f : ℕ) (acc : Fields) (s k left : List ℕ)
      → starts close_brace (skip_space s) ≡ false
      → starts quote (skip_space s) ≡ true
      → parse_string (skip_space s) ≡ ok k left
      → parse_object env (suc f) acc s ≡ after_key env f acc k (skip_space left)
  unfolding parse_value
  parse_object-next f acc s k left more opens read = rw (more, opens, read, parse_object) refl

  -- What each function of the parser makes of the text printed for it, on fuel that is enough.
  abbrev pub ReadsValue : Value → Type 0
  ReadsValue v =
      IsPlain env format v
      → (f : ℕ) (rest : List ℕ) → 3 * length (print format v) < f
      → EndsWord rest
      → parse_value env f (print format v ++ rest) ≡ ok v rest

  abbrev pub ReadsItems : Items → Type 0
  ReadsItems xs =
      ArePlain env format xs
      → (f : ℕ) (rest : List ℕ) → 3 * length (print_items format xs) + 1 < f
      → parse_array env f (print_items format xs ++ rest) ≡ ok xs rest

  abbrev pub ReadsMore : Items → Type 0
  ReadsMore xs =
      ArePlain env format xs
      → (v : Value) (f : ℕ) (rest : List ℕ) → 3 * length (print_more_items format xs) < f
      → after_item env f v (print_more_items format xs ++ rest) ≡ ok (item v xs) rest

  print_more_items-EndsWord :
      (xs : Items) (rest : List ℕ) → EndsWord (print_more_items format xs ++ rest)
  unfolding print is_delim is_space
  print_more_items-EndsWord no_items rest = refl
  print_more_items-EndsWord (item v xs) rest = refl

  skip_space-print_more_items :
      (xs : Items) (rest : List ℕ)
      → skip_space (print_more_items format xs ++ rest) ≡ print_more_items format xs ++ rest
  unfolding print is_space
  skip_space-print_more_items no_items rest = skip_space-none close_bracket rest refl
  skip_space-print_more_items (item v xs) rest = skip_space-none comma _ refl

  pub parse_array-item :
      (v : Value) (xs : Items)
      → ReadsValue v
      → ReadsMore xs
      → IsPlain env format v
      → ArePlain env format xs
      → (f : ℕ) (rest : List ℕ) → 3 * length (print format v ++ print_more_items format xs) + 1 < f
      → parse_array env f ((print format v ++ print_more_items format xs) ++ rest)
        ≡ ok (item v xs) rest
  unfolding parse_value
  parse_array-item v xs ih more h hs zero rest g = absurd (omega arith)
  parse_array-item v xs ih more h hs (suc f) rest g =
      let printed = print format v in
      let others = print_more_items format xs in
      let start = print-Starts env format v h in
      let skips = skip_space-Starts env format printed (others ++ rest) start in
      let first =
        parse_array-next f (printed ++ (others ++ rest)) (others ++ rest) v
          (rw skips (starts-Starts env format printed (others ++ rest) start))
          (rw skips (
            ih h f (others ++ rest) (omega (arith, length-append printed others))
              (print_more_items-EndsWord xs rest))) in
      let next = more hs v f rest (omega (arith, length-append printed others)) in
      rw (append_assoc printed others rest) (first ∙ rw (skip_space-print_more_items xs rest) next)

  abbrev pub ReadsFields : Fields → Type 0
  ReadsFields fs =
      FieldsPlain env format fs
      → (acc : Fields) (f : ℕ) (rest : List ℕ) → 3 * length (print_fields format fs) + 1 < f
      → parse_object env f acc (print_fields format fs ++ rest) ≡ ok (set_all acc fs) rest

  abbrev pub ReadsMoreFields : Fields → Type 0
  ReadsMoreFields fs =
      FieldsPlain env format fs
      → (acc : Fields) (f : ℕ) (rest : List ℕ) → 3 * length (print_more_fields format fs) < f
      → after_field env f acc (print_more_fields format fs ++ rest) ≡ ok (set_all acc fs) rest

  print_more_fields-EndsWord :
      (fs : Fields) (rest : List ℕ) → EndsWord (print_more_fields format fs ++ rest)
  unfolding print is_delim is_space
  print_more_fields-EndsWord no_fields rest = refl
  print_more_fields-EndsWord (field k v fs) rest = refl

  skip_space-print_more_fields :
      (fs : Fields) (rest : List ℕ)
      → skip_space (print_more_fields format fs ++ rest) ≡ print_more_fields format fs ++ rest
  unfolding print is_space
  skip_space-print_more_fields no_fields rest = skip_space-none close_brace rest refl
  skip_space-print_more_fields (field k v fs) rest = skip_space-none comma _ refl

  after_key-value :
      (v : Value) (fs : Fields)
      → ReadsValue v
      → ReadsMoreFields fs
      → IsPlain env format v
      → FieldsPlain env format fs
      → (acc : Fields) (k : List ℕ) (f : ℕ) (rest : List ℕ)
      → 3 * length (print format v ++ print_more_fields format fs) + 1 < f
      → after_key env f acc k (colon ∷ ((print format v ++ print_more_fields format fs) ++ rest))
        ≡ ok (set_all (set_field k v acc) fs) rest
  unfolding parse_value starts
  after_key-value v fs ih more h hs acc k zero rest g = absurd (omega arith)
  after_key-value v fs ih more h hs acc k (suc f) rest g =
      let printed = print format v in
      let others = print_more_fields format fs in
      let start = print-Starts env format v h in
      let skips = skip_space-Starts env format printed (others ++ rest) start in
      let first = after_key-next f acc k (printed ++ (others ++ rest)) (others ++ rest) v (
        rw skips (
          ih h f (others ++ rest) (omega (arith, length-append printed others))
            (print_more_fields-EndsWord fs rest))) in
      let next = more hs (set_field k v acc) f rest (omega (arith, length-append printed others)) in
      rw (append_assoc printed others rest) (first ∙ rw (skip_space-print_more_fields fs rest) next)

  pub parse_object-field :
      (k : List ℕ) (v : Value) (fs : Fields)
      → ReadsValue v
      → ReadsMoreFields fs
      → IsPlain env format v
      → FieldsPlain env format fs
      → (acc : Fields) (f : ℕ) (rest : List ℕ)
      → let printed = quoted k ++ colon ∷ (print format v ++ print_more_fields format fs) in
        3 * length printed + 1 < f
        → parse_object env f acc (printed ++ rest) ≡ ok (set_all (set_field k v acc) fs) rest
  unfolding parse_value
  parse_object-field k v fs ih more h hs acc zero rest g = absurd (omega arith)
  parse_object-field k v fs ih more h hs acc (suc f) rest g =
      let others = print format v ++ print_more_fields format fs in
      let t = colon ∷ (others ++ rest) in
      let opens = starts-quoted env format k t in
      let skips = skip_space-quoted env format k t in
      let first =
        parse_object-next f acc (quoted k ++ t) k t (rw skips opens.0) (rw skips opens.1)
          (rw skips (parse_string-quoted k t)) in
      let next =
        after_key-value v fs ih more h hs acc k f rest
          (omega (arith, length-append (quoted k) (colon ∷ others))) in
      rw (append_assoc (quoted k) (colon ∷ others) rest)
        (first ∙ rw (skip_space-none colon (others ++ rest) (colon-no_space env format)) next)
