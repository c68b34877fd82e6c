-- ===== src/Json/Total.antt =====
-- src/json.c: how much of the text each parser takes, and that its fuel is enough.
use luafan.Common.{
  ℕ, zero, suc, ◌≤◌, ◌<◌, ◌≡◌, refl, Bool, not, ◌&&◌, Option, none, some, List, [], ◌∷◌, ◌++◌, ◌==◌,
  ltb, if◌then◌else◌, if_both, Option-cases, inl, inr, length, arith,
}
use luafan.Json.Chars.{
  quote, next_char, codepoint_to_utf8, is_high_surrogate_hex, all_hex, hex4, backslash,
}
use luafan.Json.Value.{Message, Result, ok, failed, out_of_fuel, invalid_unicode_escape}
use luafan.Json.Text.{
  Step, adds, closes, raises, second_unit, add_codepoint, unicode_escape, unescaped, simple_escape,
  escape, string_round, string_loop, parse_string,
}

-- A step ends with at most `k` bytes left, or raises an error at most `n` bytes from the end.
abbrev pub Fits : ℕ → ℕ → Step → Type 0
Fits k n (adds out rest) = length rest ≤ k
Fits k n (closes rest) = length rest ≤ k
Fits k n (raises m at) = length at ≤ n

-- A run takes at least a byte of the last `n`, or raises an error at one of them or behind them.
abbrev pub Within {ℓ} : {A : Type ℓ} → ℕ → Result A → Type 0
Within n (ok a rest) = length rest < n
Within n (failed m at) = length at ≤ n
Within n out_of_fuel = ⊥

-- A step together with the equation that says which it is.
pub data StepIs : Step → Type 0 where
  added : {st : Step} (out rest : List ℕ) → st ≡ adds out rest → StepIs st
  closed : {st : Step} (rest : List ℕ) → st ≡ closes rest → StepIs st
  raised : {st : Step} (m : Message) (at : List ℕ) → st ≡ raises m at → StepIs st

pub Step-cases : (st : Step) → StepIs st
Step-cases (adds out rest) = added out rest refl
Step-cases (closes rest) = closed rest refl
Step-cases (raises m at) = raised m at refl

add_codepoint-Fits :
    (k n : ℕ) (at : List ℕ) (c : ℕ) (rest : List ℕ)
    → length at ≤ n
    → length rest ≤ k
    → Fits k n (add_codepoint at c rest)
unfolding add_codepoint
add_codepoint-Fits k n at c rest h g = elim (Option-cases (codepoint_to_utf8 c)) [
  | inl e ↦ rw (e, Fits) h
  | inr (out, e) ↦ rw (e, Fits) g
]

abbrev Shorter : ℕ → Option (ℕ × List ℕ) → Type 0
Shorter k none = Unit
Shorter k (some (n2, rest)) = length rest ≤ k

second_unit-Shorter : (s : List ℕ) → Shorter (length s) (second_unit s)
unfolding second_unit
second_unit-Shorter (s ∷ u ∷ a ∷ b ∷ c ∷ d ∷ rest) =
    if_both (Shorter (length (s ∷ u ∷ a ∷ b ∷ c ∷ d ∷ rest)))
      ((s == backslash) && (u == 117) && all_hex a b c d) (omega arith) tt
second_unit-Shorter [] = tt
second_unit-Shorter (s ∷ []) = tt
second_unit-Shorter (s ∷ u ∷ []) = tt
second_unit-Shorter (s ∷ u ∷ a ∷ []) = tt
second_unit-Shorter (s ∷ u ∷ a ∷ b ∷ []) = tt
second_unit-Shorter (s ∷ u ∷ a ∷ b ∷ c ∷ []) = tt

unicode_escape-Fits :
    (k n : ℕ) (at rest : List ℕ)
    → length at ≤ n
    → length rest ≤ k
    → Fits k n (unicode_escape at rest)
unfolding unicode_escape
unicode_escape-Fits k n at (a ∷ b ∷ c ∷ d ∷ rest) h g =
    if_both (Fits k n) (is_high_surrogate_hex a b c d)
      (elim (Option-cases (second_unit rest)) [
        | inl e ↦ rw (e, Fits) one
        | inr (pair, e) ↦
            let shorter = rw (e, Shorter) at (second_unit-Shorter rest) in
            rw (e, Fits) (add_codepoint-Fits k n at _ pair.1 h (omega (arith, shorter)))
      ])
      one
  where
    one : Fits k n (
        if all_hex a b c d
        then add_codepoint at (hex4 a b c d) rest
        else raises invalid_unicode_escape at)
    one =
        if_both (Fits k n) (all_hex a b c d)
          (add_codepoint-Fits k n at (hex4 a b c d) rest h (omega arith)) h
unicode_escape-Fits k n at _ h g = h

simple_escape-Fits :
    (k n : ℕ) (at : List ℕ) (c : ℕ) (rest : List ℕ)
    → length at ≤ n
    → length rest ≤ k
    → Fits k n (simple_escape at c rest)
simple_escape-Fits k n at c rest h g = elim (Option-cases (unescaped c)) [
  | inl e ↦ rw (e, Fits) h
  | inr (out, e) ↦ rw (e, Fits) g
]

escape-Fits :
    (start at rest : List ℕ)
    → length at ≤ length start
    → Fits (length rest) (length start) (escape start at rest)
unfolding escape
escape-Fits start at [] h = omega arith
escape-Fits start at (c ∷ rest) h =
    if_both (Fits (suc (length rest)) (length start)) (c == 117)
      (unicode_escape-Fits _ _ at rest h (omega arith))
      (simple_escape-Fits _ _ at c rest h (omega arith))

string_round-Fits :
    (start : List ℕ) (x : ℕ) (rest : List ℕ)
    → suc (length rest) ≤ length start
    → Fits (length rest) (length start) (string_round start x rest)
unfolding string_round
string_round-Fits start x rest h =
    let P = Fits (length rest) (length start) in
    if_both P (ltb x 32) h (
      if_both P (x == backslash) (escape-Fits start (x ∷ rest) rest h)
        (if_both P (x == quote) (omega arith) (omega arith)))

string_loop-Within :
    (start : List ℕ) (n : ℕ) (out s : List ℕ)
    → length s ≤ n
    → length s < length start
    → Within (length start) (string_loop start n out s)
unfolding string_loop
string_loop-Within start n out [] h g = omega arith
string_loop-Within start zero out (x ∷ rest) h g = absurd (omega arith)
string_loop-Within start (suc n) out (x ∷ rest) h g =
    let fits = string_round-Fits start x rest (omega arith) in
    elim (Step-cases (string_round start x rest)) [
      | added bytes behind e ↦
          let less = rw (e, Fits) at fits in
          rw (e, Within)
            (string_loop-Within start n (out ++ bytes) behind (omega (arith, less))
              (omega (arith, less)))
      | closed behind e ↦ let less = rw (e, Fits) at fits in rw (e, Within) (omega (arith, less))
      | raised m at e ↦ rw (e, Within) (rw (e, Fits) at fits)
    ]

-- For a text of any length, parse_string ends, and takes at least a byte or fails within it.
pub parse_string-Within : (s : List ℕ) → Within (length s) (parse_string s)
unfolding parse_string
parse_string-Within [] = omega arith
parse_string-Within (c ∷ rest) =
    if_both (Within (suc (length rest))) (c == quote)
      (string_loop-Within (c ∷ rest) (length rest) [] rest (omega arith) (omega arith))
      (omega arith)

pub length-next_char :
    (pred : ℕ → Bool) (negate : Bool) (s : List ℕ) → length (next_char pred negate s) ≤ length s
unfolding next_char
length-next_char pred negate [] = omega arith
length-next_char pred negate (c ∷ rest) =
    let less = length-next_char pred negate rest in
    if_both (λ t. length t ≤ suc (length rest)) (if negate then not (pred c) else pred c)
      {x = c ∷ rest} {y = next_char pred negate rest} (omega arith) (omega (arith, less))
