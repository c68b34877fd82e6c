-- ===== src/Json/Stands.antt =====
-- src/json.c: which Lua value stands for which value without references, and what a part of the
-- encoder writes.
use luafan.Common.{
  ℕ, ◌+◌, ◌<◌, ◌^◌, ◌≡◌, refl, sym, ap, ◌∙◌, Bool, true, false, List, [], ◌∷◌, ◌++◌, if◌then◌else◌,
  append_assoc, append-nil, length, length-append, length-take, arith,
}
use mathlib.Core.Path.{subst}
use luafan.ByteArray.State.{Heap, bytes_of}
use luafan.Json.Chars.{quote, escape_of}
use luafan.Json.Value.{
  Value, Items, Fields, nil, null, boolean, number, text, array, object, no_items, item, no_fields,
  field,
}
use luafan.Json.Decode.{positive_zero}
use luafan.Json.Print.{escaped, quoted}
use luafan.Json.Spelled.{escaped-escape_of}
use luafan.Json.Strbuf.{Strbuf, contents, strbuf_append}
use luafan.Json.Append.{IsValid, Appended, strbuf_append_lem, strbuf_append-granted}
use luafan.Json.Lua.{
  LuaValue, Key, Store, lua_nil, lua_null, lua_boolean, lua_number, lua_string, lua_table, name,
  table_at, number_keys,
}
use luafan.Json.Encode.{
  out_of_memory, Encoded, written, raised, then_write, Stack, push, write, write_escaped,
  encode_string, is_finite, as_array, is_ambiguous, array_values,
}

-- The value at `v` in the store, below the tables of the stack; no table contains itself, and every
-- table is what encode_table takes for an array, of fewer than INT_MAX entries, or for an object.
module _ (format : ℕ → List ℕ) (store : Store) where
  unfoldable mutual
    pub Stands : Stack → LuaValue → Value → Type 0
    Stands stack v nil = v ≡ lua_nil
    Stands stack v null = v ≡ lua_null
    Stands stack v (boolean x) = v ≡ lua_boolean x
    Stands stack v (number n) =
        (v ≡ lua_number n) × (is_finite n ≡ true) × (length (format (positive_zero n)) < 64)
    Stands stack v (text s) = v ≡ lua_string s
    Stands stack v (array xs) =
        (a : ℕ) × (v ≡ lua_table a)
        × (stack a ≡ false)
        × (as_array (table_at store a) ≡ true)
        × (is_ambiguous (table_at store a) ≡ false)
        × (number_keys (table_at store a).entries ≡ true)
        × (length (table_at store a).entries ≡ (table_at store a).rawlen)
        × (length (table_at store a).entries < 2147483647)
        × StandAll (push stack a) (array_values (table_at store a)) xs
    Stands stack v (object fs) =
        (a : ℕ) × (v ≡ lua_table a)
        × (stack a ≡ false)
        × (as_array (table_at store a) ≡ false)
        × StandFields (push stack a) (table_at store a).entries fs

    pub StandAll : Stack → List LuaValue → Items → Type 0
    StandAll stack vs no_items = vs ≡ []
    StandAll stack vs (item x xs) =
        (v : LuaValue) × (ws : List LuaValue) × (vs ≡ v ∷ ws)
        × Stands stack v x
        × StandAll stack ws xs

    pub StandFields : Stack → List (Key × LuaValue) → Fields → Type 0
    StandFields stack es no_fields = es ≡ []
    StandFields stack es (field k x fs) =
        (v : LuaValue) × (ws : List (Key × LuaValue)) × (es ≡ (name k, v) ∷ ws)
        × Stands stack v x
        × StandFields stack ws fs

length-contents : (b : Strbuf) → IsValid b → length (contents b) ≡ b.len
length-contents b v =
    let room = v.has_room in
    let size = ap (λ o. length (bytes_of o)) v.is_block ∙ v.length-block in
    omega (arith, length-take b.len (bytes_of b.data_))

-- A part writes a text: to a valid buffer with less than 2 ^ 63 bytes after it, it adds the text.
abbrev pub Writes : (Strbuf → Encoded) → List ℕ → Type 0
Writes p t =
    (b : Strbuf)
    → IsValid b
    → b.len + length t < 2 ^ 63
    → (b1 : Strbuf) × (p b ≡ written b1) × IsValid b1 × (contents b1 ≡ contents b ++ t)

pub Writes-nothing : Writes written []
Writes-nothing b v small = (b, refl, v, sym (append-nil (contents b)))

pub Writes-then :
    (p q : Strbuf → Encoded) (s t : List ℕ)
    → Writes p s
    → Writes q t
    → Writes (λ b. then_write (p b) q) (s ++ t)
Writes-then p q s t hp hq b v small =
    let sizes = length-append s t in
    let first = hp b v (omega arith) in
    let grown = length-append (contents b) s in
    let longer = sym (length-contents first.0 first.2) ∙ ap length first.3 in
    let second = hq first.0 first.2 (omega (arith, length-contents b v)) in
    (
      second.0,
      ap (λ e. then_write e q) first.1 ∙ second.1,
      second.2,
      second.3 ∙ ap (λ c. c ++ t) first.3 ∙ append_assoc (contents b) s t,
    )

granted :
    (b : Strbuf) (s : List ℕ) (r : Bool × Strbuf)
    → r.0 ≡ true
    → Appended b s r
    → (b1 : Strbuf) × ((if r.0 then written r.1 else raised out_of_memory) ≡ written b1)
      × IsValid b1
      × (contents b1 ≡ contents b ++ s)
granted b s (true, b1) e a = (b1, refl, a.0, a.1)
granted b s (false, b1) e a = cc

module _ (h : Heap) (grants : (n : ℕ) → h.grants n ≡ true) (format : ℕ → List ℕ) where
  pub write-Writes : (s : List ℕ) → Writes (write h format s) s
  unfolding write
  write-Writes s b v small =
      granted b s (strbuf_append h b s) (strbuf_append-granted h grants b s v small)
        (strbuf_append_lem h b s v small)

  write_escaped-Writes : (s : List ℕ) → Writes (write_escaped h format s) (escaped s)
  unfolding write_escaped escaped
  write_escaped-Writes [] = Writes-nothing
  write_escaped-Writes (c ∷ s) =
      subst (Writes (write_escaped h format (c ∷ s))) (sym (escaped-escape_of c s)) (
        Writes-then _ _ (escape_of c) (escaped s) (write-Writes (escape_of c))
          (write_escaped-Writes s))

  pub encode_string-Writes : (s : List ℕ) → Writes (encode_string h format s) (quoted s)
  unfolding encode_string quoted
  encode_string-Writes s =
      Writes-then (write h format (quote ∷ [])) _ (quote ∷ []) (escaped s ++ (quote ∷ []))
        (write-Writes (quote ∷ []))
        (Writes-then (write_escaped h format s) (write h format (quote ∷ [])) (escaped s)
          (quote ∷ []) (write_escaped-Writes s) (write-Writes (quote ∷ [])))
