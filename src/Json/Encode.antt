-- ===== src/Json/Encode.antt =====
-- src/json.c: json_encode.
use luafan.Common.{
  ℕ, zero, suc, ◌+◌, ◌/◌, ◌%◌, ◌^◌, Bool, true, false, not, ◌&&◌, ◌||◌, List, [], ◌∷◌, ltb, ◌==◌,
  if◌then◌else◌, length, tabulate,
}
use luafan.ByteArray.State.{Heap, is_null}
use luafan.Json.Chars.{
  quote, comma, colon, open_bracket, close_bracket, open_brace, close_brace, escape_of,
}
use luafan.Json.Decode.{positive_zero, true_text, false_text, null_text}
use luafan.Json.Strbuf.{Strbuf, strbuf_init, strbuf_append}
use luafan.Json.Lua.{
  LuaValue, Key, Table, Store, lua_nil, lua_null, lua_boolean, lua_number, lua_string, lua_table,
  lua_other, name, table_at, is_lua_nil, raw_geti, mt_is_array, mt_is_object, table_is_empty,
  number_keys, number_prefix,
}

pub data EncodeError : Type 0 where
  out_of_memory circular_reference ambiguous_empty_table mixed_keys sparse_array : EncodeError
  not_finite number_format_failed : EncodeError
  unexpected_type : ℕ → EncodeError

-- A raised error has freed the buffer; `overflow` is where a counter of type int passes INT_MAX, which
-- C leaves undefined; `no_fuel` has no counterpart in the code.
pub data Encoded : Type 0 where
  written : Strbuf → Encoded
  raised : EncodeError → Encoded
  overflow : Encoded
  no_fuel : Encoded

abbrev pub then_write : Encoded → (Strbuf → Encoded) → Encoded
then_write (written b) f = f b
then_write (raised e) f = raised e
then_write overflow f = overflow
then_write no_fuel f = no_fuel

-- nan, inf and -inf have all the bits of the exponent.
unfoldable pub is_finite : ℕ → Bool
is_finite n = ltb (n / 2 ^ 52 % 2 ^ 11) 2047

-- Which of its two branches encode_table takes.
unfoldable pub as_array : Table → Bool
as_array t =
    not (is_lua_nil (raw_geti t.entries 1))
    || mt_is_array t.meta
    || (not (mt_is_object t.meta) && table_is_empty t)

unfoldable pub is_ambiguous : Table → Bool
is_ambiguous t = not (mt_is_array t.meta) && not (mt_is_object t.meta) && table_is_empty t

-- INT_MAX
abbrev pub int_max : ℕ
int_max = 2147483647

-- `(int)lua_rawlen(L, idx)`, with the bits of a negative number from 2 ^ 31 on
abbrev pub arr_len : Table → ℕ
arr_len t = t.rawlen % 4294967296

abbrev pub array_values : Table → List LuaValue
array_values t = tabulate (raw_geti t.entries) 1 (arr_len t)

-- The tables on the way to the value.
abbrev pub Stack : Type 0
Stack = ℕ → Bool

abbrev pub push : Stack → ℕ → Stack
push stack a = λ b. if b == a then true else stack b

abbrev pub no_tables : Stack
no_tables a = false

module _ (h : Heap) (format : ℕ → List ℕ) where
  unfoldable pub write : List ℕ → Strbuf → Encoded
  write s b =
      let done = strbuf_append h b s in if done.0 then written done.1 else raised out_of_memory

  unfoldable pub write_escaped : List ℕ → Strbuf → Encoded
  unfolding write
  write_escaped [] b = written b
  write_escaped (c ∷ s) b = then_write (write (escape_of c) b) (write_escaped s)

  unfoldable pub encode_string : List ℕ → Strbuf → Encoded
  unfolding write_escaped
  encode_string s b =
      then_write (write (quote ∷ []) b)
        λ b1. then_write (write_escaped s b1) λ b2. write (quote ∷ []) b2

  unfoldable pub encode_number : ℕ → Strbuf → Encoded
  unfolding write
  encode_number n b =
      let tmp = format (positive_zero n) in
      if is_finite n
      then if ltb (length tmp) 64 then write tmp b else raised number_format_failed
      else raised not_finite

  -- The loops over the values of an array and over the entries of an object, with the function that
  -- encodes a value; `first` is whether no comma is due.
  unfoldable pub encode_items :
      (LuaValue → Strbuf → Encoded) → Bool → List LuaValue → Strbuf → Encoded
  unfolding write
  encode_items encode first [] b = written b
  encode_items encode first (v ∷ vs) b =
      then_write (if first then written b else write (comma ∷ []) b)
        λ b1. then_write (encode v b1) (encode_items encode false vs)

  unfoldable pub encode_entries :
      (LuaValue → Strbuf → Encoded) → Bool → List (Key × LuaValue) → Strbuf → Encoded
  unfolding encode_string
  encode_entries encode first [] b = written b
  encode_entries encode first ((name k, v) ∷ es) b =
      then_write (if first then written b else write (comma ∷ []) b) λ b1.
        then_write (encode_string k b1) λ b2.
          then_write (write (colon ∷ []) b2)
            λ b3. then_write (encode v b3) (encode_entries encode false es)
  encode_entries encode first ((_, v) ∷ es) b = raised mixed_keys

  -- The key count `n` and the index `i` are of type int: `n` counts the numbers before any other
  -- key, and equals `arr_len` where the loop runs, whose last round increments `i` past it.
  unfoldable pub encode_array : (LuaValue → Strbuf → Encoded) → Table → Strbuf → Encoded
  unfolding encode_items
  encode_array encode t b =
      if is_ambiguous t
      then raised ambiguous_empty_table
      else if ltb int_max (number_prefix t.entries)
      then overflow
      else if not (number_keys t.entries)
      then raised mixed_keys
      else if not (length t.entries == arr_len t)
      then raised sparse_array
      else then_write (write (open_bracket ∷ []) b) λ b1.
        then_write (encode_items encode true (array_values t) b1)
          λ b2. if arr_len t == int_max then overflow else write (close_bracket ∷ []) b2

  unfoldable pub encode_object : (LuaValue → Strbuf → Encoded) → Table → Strbuf → Encoded
  unfolding encode_entries
  encode_object encode t b =
      then_write (write (open_brace ∷ []) b)
        λ b1. then_write (encode_entries encode true t.entries b1) λ b2. write (close_brace ∷ []) b2

  unfoldable pub encode_contents : (LuaValue → Strbuf → Encoded) → Table → Strbuf → Encoded
  unfolding encode_array encode_object
  encode_contents encode t b =
      if as_array t then encode_array encode t b else encode_object encode t b

  -- A unit of fuel for each table on the way. The code takes a table off the stack at its end, so
  -- the stack of a call is that of its caller, with the table.
  unfoldable pub encode_value : Store → ℕ → Stack → LuaValue → Strbuf → Encoded
  unfolding encode_contents encode_number
  encode_value store f stack lua_nil b = write null_text b
  encode_value store f stack lua_null b = write null_text b
  encode_value store f stack (lua_boolean x) b = write (if x then true_text else false_text) b
  encode_value store f stack (lua_number n) b = encode_number n b
  encode_value store f stack (lua_string s) b = encode_string s b
  encode_value store f stack (lua_other t) b = raised (unexpected_type t)
  encode_value store zero stack (lua_table a) b = no_fuel
  encode_value store (suc f) stack (lua_table a) b =
      let encode = encode_value store f (push stack a) in
      if stack a then raised circular_reference else encode_contents encode (table_at store a) b

  -- A table more than the store has is met twice.
  unfoldable pub json_encode : Store → LuaValue → Encoded
  unfolding encode_value
  json_encode store v =
      let b = strbuf_init h in
      if is_null b.data_
      then raised out_of_memory
      else encode_value store (length store + 2) no_tables v b
