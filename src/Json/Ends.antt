-- ===== src/Json/Ends.antt =====
-- src/json.c: the fuel that the recursive descent needs.
use luafan.Common.{
  ℕ, zero, suc, ◌+◌, ◌*◌, ◌≤◌, ◌<◌, ◌≡◌, refl, List, [], ◌∷◌, Bool-cases, inl, inr, length, arith,
}
use luafan.Json.Chars.{quote, colon, close_bracket, close_brace}
use luafan.Json.Value.{Value, Fields, no_fields, set_field}
use luafan.Json.Text.{parse_string}
use luafan.Json.Total.{Within, parse_string-Within}
use luafan.Json.Decode.{
  Env, skip_space, Kind, of_string, of_number, of_literal, of_array, of_object, of_none, kind,
  Separator, ends, goes_on, breaks, separator, starts, behind, parse_value, parse_array, after_item,
  parse_object, after_key, after_field,
}
use luafan.Json.Atoms.{
  Within-bind, Within-le, length-behind, length-skip_space, parse_literal-Within,
  parse_number-Within,
}

module _ (env : Env) where
  -- What the functions of the block do on fuel `f`, where it is enough.
  pub record Enough (f : ℕ) : Type 0 where
    pub values : (s : List ℕ) → 3 * length s < f → Within (length s) (parse_value env f s)
    arrays : (s : List ℕ) → 3 * length s + 1 < f → Within (length s) (parse_array env f s)
    items : (v : Value) (s : List ℕ) → 3 * length s < f → Within (length s) (after_item env f v s)
    objects :
        (fs : Fields) (s : List ℕ)
        → 3 * length s + 1 < f
        → Within (length s) (parse_object env f fs s)
    keys :
        (fs : Fields) (key s : List ℕ)
        → 3 * length s + 2 < f
        → Within (length s) (after_key env f fs key s)
    fields :
        (fs : Fields) (s : List ℕ) → 3 * length s < f → Within (length s) (after_field env f fs s)

  none_on_zero : Enough zero
  none_on_zero = record {
    values = λ s h. absurd (omega arith);
    arrays = λ s h. absurd (omega arith);
    items = λ v s h. absurd (omega arith);
    objects = λ fs s h. absurd (omega arith);
    keys = λ fs key s h. absurd (omega arith);
    fields = λ fs s h. absurd (omega arith);
  }

  module _ (f : ℕ) (ih : Enough f) where
    array_in :
        (s : List ℕ) (n : ℕ) → length s ≤ n → 3 * length s + 1 < f → Within n (parse_array env f s)
    array_in s n h g = Within-le _ n (parse_array env f s) h (ih.arrays s g)

    value-step : (s : List ℕ) → 3 * length s < suc f → Within (length s) (parse_value env (suc f) s)
    unfolding parse_value
    value-step [] h = omega arith
    value-step (c ∷ rest) h = go (kind c) refl
      where
        go :
            (k : Kind)
            → kind c ≡ k
            → Within (suc (length rest)) (parse_value env (suc f) (c ∷ rest))
        go of_string e =
            rw (e, Within)
              (Within-bind _ (parse_string (c ∷ rest)) _ (parse_string-Within (c ∷ rest))
                λ _ _ g. g)
        go of_number e = rw (e, Within) (parse_number-Within env (c ∷ rest))
        go of_literal e = rw (e, Within) (parse_literal-Within env (c ∷ rest))
        go of_array e =
            rw (e, Within)
              (Within-bind _ (parse_array env f rest) _
                (array_in rest _ (omega arith) (omega arith)) λ _ _ g. g)
        go of_object e =
            rw (e, Within)
              (Within-bind _ (parse_object env f no_fields rest) _
                (Within-le _ _ _ (omega arith) (ih.objects no_fields rest (omega arith)))
                λ _ _ g. g)
        go of_none e = rw (e, Within) (omega arith)

    array-step :
        (s : List ℕ) → 3 * length s + 1 < suc f → Within (length s) (parse_array env (suc f) s)
    unfolding parse_value
    array-step s h =
        let skipped = length-skip_space s in
        let t = skip_space s in
        elim (Bool-cases (starts close_bracket t)) [
          | inl e ↦ rw (e, Within) (omega (arith, length-behind close_bracket t e))
          | inr e ↦
              rw (e, Within)
                (Within-le (length t) _ _ skipped (
                  Within-bind _ (parse_value env f t) _ (ih.values t (omega arith)) λ v left g.
                    let less = length-skip_space left in
                    Within-le (length (skip_space left)) _ _ (omega arith)
                      (ih.items v (skip_space left) (omega arith))))
        ]

    item-step :
        (v : Value) (s : List ℕ)
        → 3 * length s < suc f
        → Within (length s) (after_item env (suc f) v s)
    unfolding parse_value
    item-step v [] h = omega arith
    item-step v (c ∷ rest) h = go (separator close_bracket c) refl
      where
        go :
            (k : Separator)
            → separator close_bracket c ≡ k
            → Within (suc (length rest)) (after_item env (suc f) v (c ∷ rest))
        go ends e = rw (e, Within) (omega arith)
        go goes_on e =
            rw (e, Within)
              (Within-bind _ (parse_array env f rest) _
                (array_in rest _ (omega arith) (omega arith)) λ _ _ g. g)
        go breaks e = rw (e, Within) (omega arith)

    object-step :
        (fs : Fields) (s : List ℕ)
        → 3 * length s + 1 < suc f
        → Within (length s) (parse_object env (suc f) fs s)
    unfolding parse_value
    object-step fs s h =
        let skipped = length-skip_space s in
        let t = skip_space s in
        elim (Bool-cases (starts close_brace t)) [
          | inl e ↦ rw (e, Within) (omega (arith, length-behind close_brace t e))
          | inr e ↦
              rw (e, Within)
                (elim (Bool-cases (starts quote t)) [
                  | inl d ↦
                      rw (d, Within)
                        (Within-le (length t) _ _ skipped (
                          Within-bind _ (parse_string t) _ (parse_string-Within t) λ key left g.
                            let less = length-skip_space left in
                            Within-le (length (skip_space left)) _ _ (omega arith)
                              (ih.keys fs key (skip_space left) (omega arith))))
                  | inr d ↦ rw (d, Within) skipped
                ])
        ]

    key-step :
        (fs : Fields) (key s : List ℕ)
        → 3 * length s + 2 < suc f
        → Within (length s) (after_key env (suc f) fs key s)
    unfolding parse_value
    key-step fs key s h =
        let t = skip_space (behind s) in
        let skipped = length-skip_space (behind s) in
        elim (Bool-cases (starts colon s)) [
          | inl e ↦
              let shorter = length-behind colon s e in
              rw (e, Within)
                (Within-le (length t) _ _ (omega arith) (
                  Within-bind _ (parse_value env f t) _ (ih.values t (omega arith)) λ v left g.
                    let less = length-skip_space left in
                    Within-le (length (skip_space left)) _ _ (omega arith)
                      (ih.fields (set_field key v fs) (skip_space left) (omega arith))))
          | inr e ↦ rw (e, Within) (omega arith)
        ]

    field-step :
        (fs : Fields) (s : List ℕ)
        → 3 * length s < suc f
        → Within (length s) (after_field env (suc f) fs s)
    unfolding parse_value
    field-step fs [] h = omega arith
    field-step fs (c ∷ rest) h = go (separator close_brace c) refl
      where
        go :
            (k : Separator)
            → separator close_brace c ≡ k
            → Within (suc (length rest)) (after_field env (suc f) fs (c ∷ rest))
        go ends e = rw (e, Within) (omega arith)
        go goes_on e =
            rw (e, Within) (Within-le _ _ _ (omega arith) (ih.objects fs rest (omega arith)))
        go breaks e = rw (e, Within) (omega arith)

  pub enough : (f : ℕ) → Enough f
  enough zero = none_on_zero
  enough (suc f) =
      let ih = enough f in
      record {
        values = value-step f ih;
        arrays = array-step f ih;
        items = item-step f ih;
        objects = object-step f ih;
        keys = key-step f ih;
        fields = field-step f ih;
      }
