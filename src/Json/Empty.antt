-- ===== src/Json/Empty.antt =====
-- src/json.c: the rule on empty tables.
use luafan.Common.{
  ℕ, zero, suc, ◌+◌, ◌<◌, ◌≡◌, refl, sym, ap, ◌∙◌, true, List, [], ◌∷◌, length, Option, some, arith,
}
use luafan.ByteArray.State.{Heap}
use luafan.Json.Value.{array, object, no_items, no_fields}
use luafan.Json.Print.{print}
use luafan.Json.Strbuf.{Strbuf, contents, strbuf_init}
use luafan.Json.Lua.{
  LuaValue, Table, Meta, Store, lua_table, table_at, no_table, array_mt, object_mt, raw_geti,
  mt_is_array, mt_is_object, table_is_empty, number_keys,
}
use luafan.Json.Encode.{
  push, array_values, written, raised, ambiguous_empty_table, no_tables, json_encode, encode_value,
  encode_contents, encode_array, as_array, is_ambiguous,
}
use luafan.Json.Stands.{Stands}
use luafan.Json.Encodes.{json_encode-print, strbuf_init-IsValid}
use luafan.Json.Api.{set_meta, json_array, json_object}

table_at-set_meta :
    (m : Meta) (store : Store) (a : ℕ)
    → a < length store
    → table_at (set_meta m store a) a ≡ record (table_at store a) { meta = m }
table_at-set_meta m [] a h = absurd (omega arith)
table_at-set_meta m (t ∷ store) zero h = refl
table_at-set_meta m (t ∷ store) (suc a) h = table_at-set_meta m store a (omega arith)

with_meta_of :
    (m : Meta) (store : Store) (a : ℕ)
    → a < length store
    → table_at store a ≡ no_table
    → table_at (set_meta m store a) a ≡ record no_table { meta = m }
with_meta_of m store a h e =
    table_at-set_meta m store a h ∙ ap (λ (t : Table). record t { meta = m }) e

module _ (h : Heap) (grants : (n : ℕ) → h.grants n ≡ true) (format : ℕ → List ℕ) where
  -- a table with that content writes that text
  abbrev pub WritesText : Option (Store × LuaValue) → List ℕ → Type 0
  WritesText o t =
      (store : Store) × (v : LuaValue) × (b : Strbuf) × (o ≡ some (store, v))
      × (json_encode h format store v ≡ written b)
      × (contents b ≡ t)

  bare-raises_at :
      (store : Store) (f a : ℕ) (b : Strbuf)
      → table_at store a ≡ no_table
      → encode_value h format store (suc f) no_tables (lua_table a) b ≡ raised ambiguous_empty_table
  unfolding encode_value encode_contents encode_array as_array is_ambiguous raw_geti mt_is_array
      mt_is_object table_is_empty
  bare-raises_at store f a b e =
      ap (λ t. encode_contents h format (encode_value h format store f (push no_tables a)) t b) e

  bare-raises :
      (store : Store) (a : ℕ)
      → table_at store a ≡ no_table
      → json_encode h format store (lua_table a) ≡ raised ambiguous_empty_table
  unfolding json_encode
  bare-raises store a e =
      let init = strbuf_init-IsValid h grants format store in
      let fuel : length store + 2 ≡ suc (length store + 1) = omega arith in
      rw (init.1, fuel) (bare-raises_at store (length store + 1) a (strbuf_init h) e)

  array-empty :
      (store : Store) (a : ℕ)
      → table_at store a ≡ record no_table { meta = array_mt }
      → Stands format store no_tables (lua_table a) (array no_items)
  unfolding Stands as_array is_ambiguous raw_geti mt_is_array mt_is_object table_is_empty
      number_keys
  array-empty store a e = (
    a,
    refl,
    refl,
    ap as_array e,
    ap is_ambiguous e,
    ap (λ t. number_keys t.entries) e,
    ap (λ t. length t.entries) e ∙ sym (ap (λ t. t.rawlen) e),
    omega (arith, ap (λ t. length t.entries) e),
    ap array_values e,
  )

  object-empty :
      (store : Store) (a : ℕ)
      → table_at store a ≡ record no_table { meta = object_mt }
      → Stands format store no_tables (lua_table a) (object no_fields)
  unfolding Stands as_array raw_geti mt_is_array mt_is_object table_is_empty
  object-empty store a e = (a, refl, refl, ap as_array e, ap (λ t. t.entries) e)

  -- On a heap that grants every request, json_encode of an empty table without a metatable raises
  -- an error; after json_array it writes "[]", and after json_object "{}".
  pub empty_table_rule :
      (store : Store) (a : ℕ)
      → a < length store
      → table_at store a ≡ no_table
      → (json_encode h format store (lua_table a) ≡ raised ambiguous_empty_table)
        × WritesText (json_array store (lua_table a)) (91 ∷ 93 ∷ [])
        × WritesText (json_object store (lua_table a)) (123 ∷ 125 ∷ [])
  unfolding json_array json_object print
  empty_table_rule store a inside e =
      let arr =
        array-empty (set_meta array_mt store a) a (with_meta_of array_mt store a inside e) in
      let obj =
        object-empty (set_meta object_mt store a) a (with_meta_of object_mt store a inside e) in
      let as_arr =
        json_encode-print h grants format (set_meta array_mt store a) (lua_table a) (array no_items)
          arr (omega arith) in
      let as_obj =
        json_encode-print h grants format (set_meta object_mt store a) (lua_table a)
          (object no_fields) obj (omega arith) in
      (
        bare-raises store a e,
        (_, _, as_arr.0, refl, as_arr.1, as_arr.2),
        (_, _, as_obj.0, refl, as_obj.1, as_obj.2),
      )
