-- ===== src/Json/Atoms.antt =====
-- src/json.c: parse_literal and parse_number take at least a byte, or fail at one.
use luafan.Common.{
  ℕ, suc, ◌-◌, ◌≤◌, ◌<◌, ◌≡◌, refl, true, false, ◌||◌, List, [], ◌∷◌, ◌==◌, leb, if_both,
  Bool-cases, inl, inr, length, length-take, arith, ap, ◌&&◌,
}
use luafan.Json.Chars.{is_space, is_delim}
use luafan.Json.Value.{Value, Result, ok, failed, out_of_fuel, bind, same_text}
use luafan.Json.Total.{Within, length-next_char}
use luafan.Json.Decode.{
  Env, skip_space, to_delim, before, true_text, false_text, null_text, starts, behind, number_of,
  parse_number, parse_literal,
}

module _ {ℓ κ} {A : Type ℓ} {B : Type κ} where
  pub Within-bind :
      (n : ℕ) (r : Result A) (f : A → List ℕ → Result B)
      → Within n r
      → ((a : A) (rest : List ℕ) → length rest < n → Within n (f a rest))
      → Within n (bind r f)
  Within-bind n (ok a rest) f h k = k a rest h
  Within-bind n (failed m at) f h k = h
  Within-bind n out_of_fuel f h k = h

-- A run on a shorter text.
pub Within-le {ℓ} : {A : Type ℓ} (m n : ℕ) (r : Result A) → m ≤ n → Within m r → Within n r
Within-le m n (ok a rest) h w = omega arith
Within-le m n (failed e at) h w = omega arith
Within-le m n out_of_fuel h w = w

pub length-behind : (c : ℕ) (s : List ℕ) → starts c s ≡ true → length (behind s) < length s
unfolding starts
length-behind c [] h = cc
length-behind c (x ∷ rest) h = omega arith

pub length-skip_space : (s : List ℕ) → length (skip_space s) ≤ length s
length-skip_space s = length-next_char is_space true s

length-same_text : (a b : List ℕ) → same_text a b ≡ true → length a ≡ length b
unfolding same_text
length-same_text [] [] h = refl
length-same_text [] (y ∷ ys) h = cc
length-same_text (x ∷ xs) [] h = cc
length-same_text (x ∷ xs) (y ∷ ys) h = elim (Bool-cases (x == y)) [
  | inl e ↦ ap suc (length-same_text xs ys (rw (e, ◌&&◌) at h))
  | inr e ↦ absurd (impossible (rw (e, ◌&&◌) at h))
]
  where
    impossible : false ≡ true → ⊥
    impossible q = cc

-- What is left behind a word that is not empty is shorter.
shorter-word :
    (s rest : List ℕ) → length rest ≤ length s → 0 < length (before s rest) → length rest < length s
shorter-word s rest h g = omega (arith, length-take (length s - length rest) s)

pub length-to_delim : (s : List ℕ) → length (to_delim s) ≤ length s
length-to_delim s = length-next_char is_delim false s

module _ (env : Env) where
  pub parse_literal-Within : (s : List ℕ) → Within (length s) (parse_literal env s)
  unfolding parse_literal
  parse_literal-Within s =
      let word = before s (to_delim s) in
      elim (Bool-cases (same_text word true_text)) [
        | inl e ↦ rw (e, Within) (is_shorter true_text (omega arith) e)
        | inr e ↦
            rw (e, Within)
              (elim (Bool-cases (same_text word false_text)) [
                | inl d ↦ rw (d, Within) (is_shorter false_text (omega arith) d)
                | inr d ↦
                    rw (d, Within)
                      (elim (Bool-cases (same_text word null_text)) [
                        | inl b ↦ rw (b, Within) (is_shorter null_text (omega arith) b)
                        | inr b ↦ rw (b, Within) (omega arith)
                      ])
              ])
      ]
    where
      is_shorter :
          (t : List ℕ)
          → 0 < length t
          → same_text (before s (to_delim s)) t ≡ true
          → length (to_delim s) < length s
      is_shorter t h e =
          shorter-word s (to_delim s) (length-to_delim s)
            (omega (arith, length-same_text (before s (to_delim s)) t e))

  pub parse_number-Within : (s : List ℕ) → Within (length s) (parse_number env s)
  unfolding parse_number number_of
  parse_number-Within s =
      let P = Within {A = Value} (length s) in
      let word = before s (to_delim s) in
      elim (Bool-cases ((length word == 0) || leb 128 (length word))) [
        | inl e ↦ rw (e, Within) (omega arith)
        | inr e ↦
            let filled : 0 < length word = ground arith in
            rw (e, Within)
              (if_both P ((env.strtod word).1 == length word)
                (shorter-word s (to_delim s) (length-to_delim s) filled) (omega arith))
      ]
