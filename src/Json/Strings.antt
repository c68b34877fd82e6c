-- ===== src/Json/Strings.antt =====
-- src/json.c: a string that encode_string writes, read by parse_string.
use luafan.Common.{
  ℕ, zero, suc, ◌≤◌, ◌<◌, ◌≡◌, sym, ap, ◌∙◌, List, [], ◌∷◌, ◌++◌, append_assoc, append-nil, length,
  length-append, arith,
}
use luafan.Json.Chars.{quote, escape_of}
use luafan.Json.Value.{ok}
use luafan.Json.Text.{string_round, string_loop, parse_string}
use luafan.Json.Print.{escaped, quoted}
use luafan.Json.Escapes.{escape-RoundTrip}
use luafan.Json.Spelled.{escaped-escape_of}

length-escape_of : (c : ℕ) → 0 < length (escape_of c)
length-escape_of c =
    let read = escape-RoundTrip [] [] c in
    omega (arith, length-append (escape_of c) [], ap (length {A = ℕ}) read.2)

pub length-escaped : (s : List ℕ) → length s ≤ length (escaped s)
unfolding escaped
length-escaped [] = omega arith
length-escaped (c ∷ s) = omega (
  arith,
  ap (length {A = ℕ}) (escaped-escape_of c s),
  length-append (escape_of c) (escaped s),
  length-escape_of c,
  length-escaped s,
)

string_loop-escaped :
    (start : List ℕ) (n : ℕ) (out s rest : List ℕ)
    → length s < n
    → string_loop start n out (escaped s ++ (quote ∷ rest)) ≡ ok (out ++ s) rest
unfolding string_loop string_round escaped
string_loop-escaped start zero out s rest h = absurd (omega arith)
string_loop-escaped start (suc n) out [] rest h = ap (λ t. ok t rest) (sym (append-nil out))
string_loop-escaped start (suc n) out (c ∷ s) rest h =
    let read = escape-RoundTrip start (escaped s ++ (quote ∷ rest)) c in
    let later = string_loop-escaped start n (out ++ (c ∷ [])) s rest (omega arith) in
    rw
      (
        escaped-escape_of c s,
        append_assoc (escape_of c) (escaped s) (quote ∷ rest),
        read.2,
        read.3,
        string_loop,
      )
      (later ∙ ap (λ t. ok t rest) (append_assoc out (c ∷ []) s))

-- What is written for a string is read as that string, up to the closing quote.
pub parse_string-quoted : (s rest : List ℕ) → parse_string (quoted s ++ rest) ≡ ok s rest
unfolding parse_string quoted
parse_string-quoted s rest =
    let long = length-escaped s in
    rw (append_assoc (escaped s) (quote ∷ []) rest)
      (string_loop-escaped _ _ [] s rest (omega (arith, length-append (escaped s) (quote ∷ rest))))
