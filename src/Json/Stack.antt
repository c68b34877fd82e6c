-- ===== src/Json/Stack.antt =====
-- src/json.c: the map of the tables that json_encode is in, and why encode_value ends.
use luafan.Common.{
  ℕ, zero, suc, ◌+◌, ◌≤◌, ◌<◌, ◌≡◌, refl, ap, ◌∙◌, Bool, true, false, not, List, [], ◌∷◌, ltb, ◌==◌,
  if◌then◌else◌, if_both, Bool-cases, inl, inr, length, arith,
}
use luafan.Common.Count.{free, free-none}
use native.Mathlib.Decide.{dec_lt}
use luafan.ByteArray.State.{Heap, is_null}
use luafan.Json.Strbuf.{Strbuf, strbuf_init, strbuf_append}
use luafan.Json.Lua.{
  LuaValue, Key, Table, Store, lua_nil, lua_null, lua_boolean, lua_number, lua_string, lua_table,
  lua_other, name, index, other_number, other_key, no_table, table_at, number_keys, number_prefix,
  is_number_key, raw_geti, table_is_empty, mt_is_array, mt_is_object,
}
use luafan.Json.Chars.{open_brace, close_brace}
use luafan.Json.Decode.{positive_zero}
use luafan.Json.Encode.{
  Encoded, written, raised, overflow, no_fuel, then_write, Stack, push, no_tables, write,
  write_escaped, encode_string, encode_number, encode_items, encode_entries, encode_array,
  encode_object, encode_contents, encode_value, json_encode, is_finite, as_array, is_ambiguous,
  array_values, arr_len, int_max, number_format_failed,
}

free-push_above : (stack : Stack) (a n : ℕ) → n ≤ a → free (push stack a) n ≡ free stack n
unfolding free
free-push_above stack a zero h = refl
free-push_above stack a (suc n) h =
    let other : (n == a) ≡ false = ground arith in
    rw other (ap (◌+◌ (if stack n then 0 else 1)) (free-push_above stack a n (omega arith)))

pub free-push :
    (stack : Stack) (a n : ℕ) → a < n → stack a ≡ false → suc (free (push stack a) n) ≡ free stack n
unfolding free
free-push stack a zero h e = absurd (omega arith)
free-push stack a (suc n) h e = elim (dec_lt a n) [
  | yes below ↦
      let other : (n == a) ≡ false = ground arith in
      let rest = free-push stack a n below e in rw other (omega (arith, rest))
  | no last ↦
      let top : n ≡ a = omega arith in
      let same : (n == a) ≡ true = ground arith in
      let rest = free-push_above stack a n (omega arith) in
      let open_below : stack n ≡ false = ap stack top ∙ e in
      rw (same, open_below) (omega (arith, rest))
]

pub table_at-past : (store : Store) (a : ℕ) → length store ≤ a → table_at store a ≡ no_table
table_at-past [] a h = refl
table_at-past (t ∷ store) zero h = absurd (omega arith)
table_at-past (t ∷ store) (suc a) h = table_at-past store a (omega arith)

pub number_prefix_bound : (es : List (Key × LuaValue)) → number_prefix es ≤ length es
unfolding number_prefix
number_prefix_bound [] = omega arith
number_prefix_bound ((k, v) ∷ es) =
    let rest = number_prefix_bound es in
    if_both (λ n. n ≤ suc (length es)) (is_number_key k) (omega (arith, rest)) (omega arith)

abbrev pub Ends : Encoded → Type 0
Ends (written b) = Unit
Ends (raised e) = Unit
Ends overflow = ⊥
Ends no_fuel = ⊥

Ends-then :
    (e : Encoded) (f : Strbuf → Encoded)
    → Ends e
    → ((b : Strbuf) → Ends (f b))
    → Ends (then_write e f)
Ends-then (written b) f h k = k b
Ends-then (raised e) f h k = tt
Ends-then overflow f h k = h
Ends-then no_fuel f h k = h

module _ (h : Heap) (format : ℕ → List ℕ) where
  write-Ends : (s : List ℕ) (b : Strbuf) → Ends (write h format s b)
  unfolding write
  write-Ends s b = if_both Ends (strbuf_append h b s).0 tt tt

  write_escaped-Ends : (s : List ℕ) (b : Strbuf) → Ends (write_escaped h format s b)
  unfolding write_escaped
  write_escaped-Ends [] b = tt
  write_escaped-Ends (c ∷ s) b = Ends-then _ _ (write-Ends _ b) (write_escaped-Ends s)

  encode_string-Ends : (s : List ℕ) (b : Strbuf) → Ends (encode_string h format s b)
  unfolding encode_string
  encode_string-Ends s b =
      Ends-then _ _ (write-Ends _ b)
        λ b1. Ends-then _ _ (write_escaped-Ends s b1) λ b2. write-Ends _ b2

  encode_number-Ends : (n : ℕ) (b : Strbuf) → Ends (encode_number h format n b)
  unfolding encode_number
  encode_number-Ends n b =
      let tmp = format (positive_zero n) in
      if_both Ends (is_finite n)
        (if_both Ends (ltb (length tmp) 64) {y = raised number_format_failed} (write-Ends tmp b) tt)
        tt

  -- A comma or nothing.
  comma-Ends :
      (first : Bool) (s : List ℕ) (b : Strbuf)
      → Ends (if first then written b else write h format s b)
  comma-Ends first s b = if_both Ends first tt (write-Ends s b)

  module _ (encode : LuaValue → Strbuf → Encoded)
      (ends : (v : LuaValue) (b : Strbuf) → Ends (encode v b)) where
    encode_items-Ends :
        (first : Bool) (vs : List LuaValue) (b : Strbuf)
        → Ends (encode_items h format encode first vs b)
    unfolding encode_items
    encode_items-Ends first [] b = tt
    encode_items-Ends first (v ∷ vs) b =
        Ends-then _ _ (comma-Ends first _ b)
          λ b1. Ends-then _ _ (ends v b1) (encode_items-Ends false vs)

    encode_entries-Ends :
        (first : Bool) (es : List (Key × LuaValue)) (b : Strbuf)
        → Ends (encode_entries h format encode first es b)
    unfolding encode_entries
    encode_entries-Ends first [] b = tt
    encode_entries-Ends first ((name k, v) ∷ es) b = Ends-then _ _ (comma-Ends first _ b) λ b1.
        Ends-then _ _ (encode_string-Ends k b1) λ b2.
          Ends-then _ _ (write-Ends _ b2)
            λ b3. Ends-then _ _ (ends v b3) (encode_entries-Ends false es)
    encode_entries-Ends first ((index i, v) ∷ es) b = tt
    encode_entries-Ends first ((other_number n, v) ∷ es) b = tt
    encode_entries-Ends first ((other_key, v) ∷ es) b = tt

    encode_contents-Ends :
        (t : Table) (b : Strbuf)
        → length t.entries < 2147483647
        → Ends (encode_contents h format encode t b)
    unfolding encode_contents encode_array encode_object
    encode_contents-Ends t b short =
        let counts : ltb int_max (number_prefix t.entries) ≡ false =
          ground (arith, number_prefix_bound t.entries) in
        let as_object =
          Ends-then _
            (λ b1.
              then_write (encode_entries h format encode true t.entries b1)
                (write h format (close_brace ∷ [])))
            (write-Ends (open_brace ∷ []) b)
            λ b1.
              Ends-then _ (write h format (close_brace ∷ []))
                (encode_entries-Ends true t.entries b1) λ b2. write-Ends _ b2 in
        elim (Bool-cases (length t.entries == arr_len t)) [
          | inl full ↦
              let ends_before : (arr_len t == int_max) ≡ false = ground arith in
              rw (counts, full, ends_before)
                (if_both Ends (as_array t)
                  (if_both Ends (is_ambiguous t) tt (
                    if_both Ends (not (number_keys t.entries)) tt (
                      Ends-then _ _ (write-Ends _ b) λ b1.
                        Ends-then _ _ (encode_items-Ends true (array_values t) b1)
                          λ b2. write-Ends _ b2)))
                  as_object)
          | inr sparse ↦
              rw (counts, sparse)
                (if_both Ends (as_array t)
                  (if_both Ends (is_ambiguous t) tt
                    (if_both Ends (not (number_keys t.entries)) tt tt))
                  as_object)
        ]

  encode_contents-no_table :
      (encode : LuaValue → Strbuf → Encoded) (b : Strbuf)
      → Ends (encode_contents h format encode no_table b)
  unfolding encode_contents encode_array as_array is_ambiguous raw_geti table_is_empty mt_is_array
      mt_is_object
  encode_contents-no_table encode b = tt

  -- Where the fuel is above the number of tables that are not on the stack, encode_value ends.
  pub encode_value-Ends :
      (store : Store) (f : ℕ) (stack : Stack) (v : LuaValue) (b : Strbuf)
      → ((a : ℕ) → length (table_at store a).entries < 2147483647)
      → free stack (length store) < f
      → Ends (encode_value h format store f stack v b)
  unfolding encode_value
  encode_value-Ends store f stack lua_nil b short g = write-Ends _ b
  encode_value-Ends store f stack lua_null b short g = write-Ends _ b
  encode_value-Ends store f stack (lua_boolean x) b short g = write-Ends _ b
  encode_value-Ends store f stack (lua_number n) b short g = encode_number-Ends n b
  encode_value-Ends store f stack (lua_string s) b short g = encode_string-Ends s b
  encode_value-Ends store f stack (lua_other t) b short g = tt
  encode_value-Ends store zero stack (lua_table a) b short g = absurd (omega arith)
  encode_value-Ends store (suc f) stack (lua_table a) b short g = elim (Bool-cases (stack a)) [
    | inl e ↦ rw (e, Ends) tt
    | inr e ↦
        rw (e, Ends)
          (elim (dec_lt a (length store)) [
            | yes below ↦
                let less = free-push stack a (length store) below e in
                encode_contents-Ends _
                  (λ v1 b1. encode_value-Ends store f (push stack a) v1 b1 short (omega arith))
                  (table_at store a) b (short a)
            | no above ↦
                let none_there = table_at-past store a (omega arith) in
                rw none_there
                  (encode_contents-no_table (encode_value h format store f (push stack a)) b)
          ])
  ]

  -- json_encode ends with a text or an error on any store of tables with fewer than INT_MAX entries
  -- each, tables that contain each other or themselves included.
  pub json_encode_total :
      (store : Store) (v : LuaValue)
      → ((a : ℕ) → length (table_at store a).entries < 2147483647)
      → Ends (json_encode h format store v)
  unfolding json_encode
  json_encode_total store v short = if_both Ends (is_null (strbuf_init h).data_) tt (
      encode_value-Ends store _ no_tables v (strbuf_init h) short
        (omega (arith, free-none (length store))))
