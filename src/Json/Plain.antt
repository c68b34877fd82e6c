-- ===== src/Json/Plain.antt =====
-- src/json.c: the values that a text can stand for, and where the printed parts begin and end.
use luafan.Common.{
  ℕ, ◌-◌, ◌<◌, ◌≡◌, refl, Bool, true, false, if◌then◌else◌, List, [], ◌∷◌, ◌++◌, ◌==◌, length,
  length-append, take-length_append, All, arith,
}
use luafan.Json.Chars.{is_space, is_delim, next_char, quote, close_bracket}
use luafan.Json.Value.{
  Value, Items, Fields, nil, null, boolean, number, text, array, object, no_items, item, no_fields,
  field, same_text,
}
use luafan.Json.Decode.{
  Env, positive_zero, skip_space, to_delim, before, kind, of_number, number_start,
}

-- What follows a value: nothing, or a byte that ends a word.
abbrev pub EndsWord : List ℕ → Type 0
EndsWord [] = Unit
EndsWord (c ∷ rest) = is_delim c ≡ true

-- A number whose text is read back: no negative zero, and of at most 14 significant digits.
pub record IsExact (strtod : List ℕ → ℕ × ℕ) (format : ℕ → List ℕ) (n : ℕ) : Type 0 where
  pub first : ℕ
  pub others : List ℕ
  pub is_text : format n ≡ first ∷ others
  pub starts_number : number_start first ≡ true
  pub is_word : All (λ c. is_delim c ≡ false) (format n)
  pub is_short : length (format n) < 64
  pub is_read : strtod (format n) ≡ (n, length (format n))
  pub is_positive_zero : positive_zero n ≡ n

-- No key of the fields is the text.
unfoldable pub apart : List ℕ → Fields → Bool
apart k no_fields = true
apart k (field j v fs) = if same_text k j then false else apart k fs

unfoldable pub distinct : Fields → Bool
unfolding apart
distinct no_fields = true
distinct (field k v fs) = if apart k fs then distinct fs else false

abbrev pub is_nil : Value → Bool
is_nil nil = true
is_nil _ = false

module _ (env : Env) (format : ℕ → List ℕ) where
  unfoldable mutual
    pub IsPlain : Value → Type 0
    IsPlain nil = env.null_value ≡ nil
    IsPlain null = env.null_value ≡ null
    IsPlain (boolean b) = Unit
    IsPlain (number n) = IsExact env.strtod format n
    IsPlain (text s) = Unit
    IsPlain (array xs) = ArePlain xs
    IsPlain (object fs) = (distinct fs ≡ true) × FieldsPlain fs

    pub ArePlain : Items → Type 0
    ArePlain no_items = Unit
    ArePlain (item v xs) = IsPlain v × ArePlain xs

    pub FieldsPlain : Fields → Type 0
    FieldsPlain no_fields = Unit
    FieldsPlain (field k v fs) = (is_nil v ≡ false) × IsPlain v × FieldsPlain fs

-- A word is read up to the byte that ends it.
pub to_delim-word :
    (word rest : List ℕ)
    → All (λ c. is_delim c ≡ false) word
    → EndsWord rest
    → to_delim (word ++ rest) ≡ rest
unfolding next_char
to_delim-word [] [] h e = refl
to_delim-word [] (c ∷ rest) h e = rw e refl
to_delim-word (c ∷ word) rest h e = rw h.0 (to_delim-word word rest h.1 e)

pub before-word : (word rest : List ℕ) → before (word ++ rest) rest ≡ word
before-word word rest =
    let enough : length (word ++ rest) - length rest ≡ length word =
      omega (arith, length-append word rest) in
    rw enough (take-length_append word rest)

pub skip_space-none :
    (c : ℕ) (rest : List ℕ) → is_space c ≡ false → skip_space (c ∷ rest) ≡ c ∷ rest
unfolding next_char
skip_space-none c rest h = rw h refl

pub number_start-kind : (c : ℕ) → number_start c ≡ true → kind c ≡ of_number
unfolding kind
number_start-kind c h = let other : (c == quote) ≡ false = ground arith in rw (other, h) refl

pub number_start-not :
    (c : ℕ) → number_start c ≡ true → (is_space c ≡ false) × ((c == close_bracket) ≡ false)
unfolding is_space
number_start-not c h = let spaces : is_space c ≡ false = ground arith in (spaces, ground arith)
