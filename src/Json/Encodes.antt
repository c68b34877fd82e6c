-- ===== src/Json/Encodes.antt =====
-- src/json.c: json_encode writes the text of the value that its argument stands for.
use luafan.Common.{
  ℕ, zero, suc, ◌+◌, ◌-◌, ◌<◌, ◌^◌, ◌≡◌, refl, sym, ap, ◌∙◌, true, false, List, [], ◌∷◌, ◌++◌,
  if◌then◌else◌, length, ltb, ◌==◌, arith, tabulate, blit, length-blit, length-tabulate, ◌%◌,
}
use luafan.ByteArray.State.{Heap, is_null}
use luafan.ByteArray.Grow.{malloc}
use luafan.Json.Chars.{open_bracket, close_bracket, open_brace, close_brace}
use luafan.Json.Value.{
  Value, Items, Fields, nil, null, boolean, number, text, array, object, no_items, item, no_fields,
  field,
}
use luafan.Json.Decode.{Env, json_decode, value, true_text, false_text, null_text}
use luafan.Json.Print.{print, print_items, print_more_items, print_fields, print_more_fields}
use luafan.Json.Strbuf.{Strbuf, contents, strbuf_init}
use luafan.Json.Append.{IsValid}
use luafan.Json.Lua.{LuaValue, Key, Table, Store, lua_table, table_at, number_keys, number_prefix}
use luafan.Json.Encode.{
  Encoded, written, Stack, push, no_tables, write, as_array, is_ambiguous, array_values, arr_len,
  int_max, encode_items, encode_entries, encode_array, encode_object, encode_contents, encode_value,
  json_encode,
}
use luafan.Common.Count.{free, free-none}
use luafan.Json.Stack.{free-push, number_prefix_bound}
use luafan.Json.Stands.{
  Stands, StandAll, StandFields, Writes, Writes-then, write-Writes, encode_string-Writes,
}
use luafan.Json.Spelled.{shown-positive_zero}
use luafan.Json.Plain.{IsPlain}
use luafan.Json.RoundTrip.{json_decode-print}
use luafan.Json.Loops.{
  Writes-same, EncodesValue, encode_number-Writes, items_loop, entries_loop, items_step,
  entries_step, array-in_store, object-in_store,
}

module _ (h : Heap) (grants : (n : ℕ) → h.grants n ≡ true) (format : ℕ → List ℕ)
    (store : Store) where
  -- the parts of encode_table on a table that it takes for an array, and for an object
  array-Writes :
      (encode : LuaValue → Strbuf → Encoded) (t : Table) (s : List ℕ)
      → as_array t ≡ true
      → is_ambiguous t ≡ false
      → number_keys t.entries ≡ true
      → length t.entries ≡ t.rawlen
      → length t.entries < 2147483647
      → Writes (items_loop h grants format store encode true (array_values t)) s
      → Writes (encode_contents h format encode t) (open_bracket ∷ s)
  unfolding encode_contents encode_array
  array-Writes encode t s e clear keys dense short w =
      let full : (length t.entries == arr_len t) ≡ true = ground arith in
      let counts : ltb int_max (number_prefix t.entries) ≡ false =
        ground (arith, number_prefix_bound t.entries) in
      let ends : (arr_len t == int_max) ≡ false = ground arith in
      Writes-same _ _ _ (λ b. rw (e, clear, counts, keys, full, ends) refl)
        (Writes-then (write h format (open_bracket ∷ [])) _ (open_bracket ∷ []) s
          (write-Writes h grants format (open_bracket ∷ [])) w)

  object-Writes :
      (encode : LuaValue → Strbuf → Encoded) (t : Table) (s : List ℕ)
      → as_array t ≡ false
      → Writes (entries_loop h grants format store encode true t.entries) s
      → Writes (encode_contents h format encode t) (open_brace ∷ s)
  unfolding encode_contents encode_object
  object-Writes encode t s e w =
      Writes-same _ _ _ (λ b. rw e refl)
        (Writes-then (write h format (open_brace ∷ [])) _ (open_brace ∷ []) s
          (write-Writes h grants format (open_brace ∷ [])) w)

  -- a table that is not on the stack
  table-Writes :
      (f : ℕ) (stack : Stack) (a : ℕ) (s : List ℕ)
      → stack a ≡ false
      → Writes
          (encode_contents h format
            (encode_value h format store f (push stack a))
            (table_at store a))
          s
      → Writes (encode_value h format store (suc f) stack (lua_table a)) s
  unfolding encode_value
  table-Writes f stack a s e w = Writes-same _ _ _ (λ b. rw e refl) w

  mutual
    unfolding print Stands encode_value encode_items encode_entries

    encodes : (x : Value) → EncodesValue h grants format store x
    encodes nil f stack v e g = rw e (write-Writes h grants format null_text)
    encodes null f stack v e g = rw e (write-Writes h grants format null_text)
    encodes (boolean x) f stack v e g =
        rw e (write-Writes h grants format (if x then true_text else false_text))
    encodes (number n) f stack v e g =
        rw (e.0, sym (shown-positive_zero n)) (encode_number-Writes h grants format store n e.1 e.2)
    encodes (text s) f stack v e g = rw e (encode_string-Writes h grants format s)
    encodes (array xs) zero stack v e g = absurd (omega arith)
    encodes (array xs) (suc f) stack v (a, is, fresh, as_arr, clear, keys, dense, short, all) g =
        let less =
          free-push stack a (length store) (array-in_store h grants format store a clear) fresh in
        rw is (
          table-Writes f stack a _ fresh (
            array-Writes _ (table_at store a) _ as_arr clear keys dense short
              (encodes_items xs f (push stack a) _ all (omega (arith, less)))))
    encodes (object fs) zero stack v e g = absurd (omega arith)
    encodes (object fs) (suc f) stack v (a, is, fresh, as_obj, all) g =
        let less =
          free-push stack a (length store) (object-in_store h grants format store a as_obj) fresh in
        rw is (
          table-Writes f stack a _ fresh (
            object-Writes _ (table_at store a) _ as_obj
              (encodes_fields fs f (push stack a) _ all (omega (arith, less)))))

    encodes_items :
        (xs : Items) (f : ℕ) (stack : Stack) (vs : List LuaValue)
        → StandAll format store stack vs xs
        → free stack (length store) < f
        → Writes
            (items_loop h grants format store (encode_value h format store f stack) true vs)
            (print_items format xs)
    encodes_items no_items f stack vs e g = rw e (write-Writes h grants format (close_bracket ∷ []))
    encodes_items (item x xs) f stack vs (v, ws, is, one, all) g = rw is (
        items_step h grants format store _ true v ws _ _ (encodes x f stack v one g)
          (encodes_more xs f stack ws all g))

    encodes_more :
        (xs : Items) (f : ℕ) (stack : Stack) (vs : List LuaValue)
        → StandAll format store stack vs xs
        → free stack (length store) < f
        → Writes
            (items_loop h grants format store (encode_value h format store f stack) false vs)
            (print_more_items format xs)
    encodes_more no_items f stack vs e g = rw e (write-Writes h grants format (close_bracket ∷ []))
    encodes_more (item x xs) f stack vs (v, ws, is, one, all) g = rw is (
        items_step h grants format store _ false v ws _ _ (encodes x f stack v one g)
          (encodes_more xs f stack ws all g))

    encodes_fields :
        (fs : Fields) (f : ℕ) (stack : Stack) (es : List (Key × LuaValue))
        → StandFields format store stack es fs
        → free stack (length store) < f
        → Writes
            (entries_loop h grants format store (encode_value h format store f stack) true es)
            (print_fields format fs)
    encodes_fields no_fields f stack es e g = rw e (write-Writes h grants format (close_brace ∷ []))
    encodes_fields (field k x fs) f stack es (v, ws, is, one, all) g = rw is (
        entries_step h grants format store _ true k v ws _ _ (encodes x f stack v one g)
          (encodes_more_fields fs f stack ws all g))

    encodes_more_fields :
        (fs : Fields) (f : ℕ) (stack : Stack) (es : List (Key × LuaValue))
        → StandFields format store stack es fs
        → free stack (length store) < f
        → Writes
            (entries_loop h grants format store (encode_value h format store f stack) false es)
            (print_more_fields format fs)
    encodes_more_fields no_fields f stack es e g =
        rw e (write-Writes h grants format (close_brace ∷ []))
    encodes_more_fields (field k x fs) f stack es (v, ws, is, one, all) g = rw is (
        entries_step h grants format store _ false k v ws _ _ (encodes x f stack v one g)
          (encodes_more_fields fs f stack ws all g))

  pub strbuf_init-IsValid : IsValid (strbuf_init h) × (is_null (strbuf_init h).data_ ≡ false)
  unfolding strbuf_init malloc
  strbuf_init-IsValid =
      let granted = grants 256 in
      rw granted (
        record {
          block = blit (tabulate (λ i. h.garbage i % 256) 0 256) 0 (0 ∷ []);
          is_block = refl;
          length-block =
              length-blit (tabulate (λ i. h.garbage i % 256) 0 256) 0 (0 ∷ [])
              ∙ length-tabulate (λ i. h.garbage i % 256) 0 256;
          has_room = omega arith;
        },
        refl,
      )

  strbuf_init-empty : ((strbuf_init h).len ≡ 0) × (contents (strbuf_init h) ≡ [])
  unfolding strbuf_init
  strbuf_init-empty = (refl, refl)

  -- On a heap that grants every request, json_encode of a Lua value that stands for a value x (no
  -- table contains itself, each is an array of fewer than INT_MAX entries or an object to the
  -- encoder, numbers are finite and of less than 64 bytes) whose text is shorter than 2 ^ 63 bytes
  -- writes the text that the printer of values specifies for x.
  pub json_encode-print :
      (v : LuaValue) (x : Value)
      → Stands format store no_tables v x
      → length (print format x) < 2 ^ 63
      → (b : Strbuf) × (json_encode h format store v ≡ written b) × (contents b ≡ print format x)
  unfolding json_encode
  json_encode-print v x stands small =
      let init = strbuf_init-IsValid in
      let empty = strbuf_init-empty in
      let room : (strbuf_init h).len + length (print format x) < 2 ^ 63 = omega (arith, empty.0) in
      let w =
        encodes x (length store + 2) no_tables v stands (omega (arith, free-none (length store)))
          (strbuf_init h) init.0 room in
      (w.0, rw init.1 w.1, w.3 ∙ ap (λ t. t ++ print format x) empty.1)

  -- On a heap that grants every request, a Lua value that stands for a value x (no table contains
  -- itself, each is an array of fewer than INT_MAX entries or an object to the encoder, numbers are
  -- finite and of less than 64 bytes) whose keys differ, whose object fields are not nil, whose
  -- numbers are read back exactly, whose nil and null are as the decoder makes them, and whose text
  -- is shorter than 2 ^ 31 - 1 bytes is written by json_encode as a text that json_decode reads as
  -- x.
  pub json_decode-json_encode :
      (env : Env) (v : LuaValue) (x : Value)
      → Stands format store no_tables v x
      → IsPlain env format x
      → length (print format x) < 2 ^ 31 - 1
      → (b : Strbuf) × (json_encode h format store v ≡ written b)
        × (json_decode env (text (contents b)) ≡ value x)
  json_decode-json_encode env v x stands plain small =
      let w = json_encode-print v x stands (omega (arith, small)) in
      (
        w.0,
        w.1,
        ap (λ t. json_decode env (text t)) w.2
            ∙ json_decode-print env format x plain (omega (arith, small)),
      )
