-- ===== src/Json/Starts.antt =====
-- src/json.c: the first byte of a printed value, and numbers read back.
use luafan.Common.{ℕ, ◌<◌, ◌≡◌, refl, ap, true, false, List, ◌∷◌, ◌++◌, ◌==◌, leb, length, arith}
use luafan.Json.Chars.{is_space, quote, colon, close_bracket, close_brace}
use luafan.Json.Value.{Value, nil, null, boolean, number, text, array, object, ok}
use luafan.Json.Decode.{Env, skip_space, parse_number, number_of, starts}
use luafan.Json.Print.{print, quoted}
use luafan.Json.Spelled.{shown-kept}
use luafan.Json.Plain.{
  EndsWord, IsExact, IsPlain, to_delim-word, before-word, skip_space-none, number_start-not,
}

module _ (env : Env) (format : ℕ → List ℕ) where
  pub parse_number-format :
      (n : ℕ) (rest : List ℕ)
      → IsExact env.strtod format n
      → EndsWord rest
      → parse_number env (format n ++ rest) ≡ ok (number n) rest
  unfolding parse_number number_of
  parse_number-format n rest h e =
      let left = to_delim-word (format n) rest h.is_word e in
      let filled : 0 < length (format n) = omega (arith, ap (length {A = ℕ}) h.is_text) in
      let none_missing : (length (format n) == 0) ≡ false = ground arith in
      let same : (length (format n) == length (format n)) ≡ true = ground arith in
      let not_long : leb 128 (length (format n)) ≡ false = let short = h.is_short in ground arith in
      rw
        (
          left,
          before-word (format n) rest,
          none_missing,
          not_long,
          h.is_read,
          same,
          h.is_positive_zero,
        )
        refl

  -- The text of a value starts with a byte that is neither white space nor a closing bracket.
  pub record Starts (s : List ℕ) : Type 0 where
    pub head : ℕ
    pub tail : List ℕ
    pub is_head : s ≡ head ∷ tail
    pub no_space : is_space head ≡ false
    pub no_end : (head == close_bracket) ≡ false

  Starts-cons :
      (c : ℕ) (rest : List ℕ)
      → is_space c ≡ false
      → (c == close_bracket) ≡ false
      → Starts (c ∷ rest)
  Starts-cons c rest h g = record {
    head = c;
    tail = rest;
    is_head = refl;
    no_space = h;
    no_end = g;
  }

  pub print-Starts : (v : Value) → IsPlain env format v → Starts (print format v)
  unfolding print quoted is_space IsPlain
  print-Starts (number n) h =
      let other = number_start-not h.first h.starts_number in
      rw (shown-kept n h.is_positive_zero) record {
        head = h.first;
        tail = h.others;
        is_head = h.is_text;
        no_space = other.0;
        no_end = other.1;
      }
  print-Starts nil h = Starts-cons _ _ refl refl
  print-Starts null h = Starts-cons _ _ refl refl
  print-Starts (boolean true) h = Starts-cons _ _ refl refl
  print-Starts (boolean false) h = Starts-cons _ _ refl refl
  print-Starts (text s) h = Starts-cons _ _ refl refl
  print-Starts (array xs) h = Starts-cons _ _ refl refl
  print-Starts (object fs) h = Starts-cons _ _ refl refl

  pub skip_space-Starts : (s t : List ℕ) → Starts s → skip_space (s ++ t) ≡ s ++ t
  skip_space-Starts s t h = rw h.is_head (skip_space-none h.head (h.tail ++ t) h.no_space)

  pub starts-Starts : (s t : List ℕ) → Starts s → starts close_bracket (s ++ t) ≡ false
  unfolding starts
  starts-Starts s t h = rw (h.is_head, h.no_end) refl

  pub skip_space-quoted : (k t : List ℕ) → skip_space (quoted k ++ t) ≡ quoted k ++ t
  unfolding quoted is_space
  skip_space-quoted k t = skip_space-none quote _ refl

  pub starts-quoted :
      (k t : List ℕ)
      → (starts close_brace (quoted k ++ t) ≡ false) × (starts quote (quoted k ++ t) ≡ true)
  unfolding quoted starts
  starts-quoted k t = (refl, refl)

  pub colon-no_space : is_space colon ≡ false
  unfolding is_space
  colon-no_space = refl
