-- ===== src/ObjectBuf/Total.antt =====
-- src/objectbuf.c: objectbuf_decode ends, but for one count of tables.
use luafan.Common.{
  ℕ, ◌-◌, ◌^◌, ◌<◌, ◌≡◌, Bool, true, false, Option, none, some, List, [], ◌∷◌, ◌++◌, length,
  Bool-cases, inl, inr, if◌then◌else◌, ◌==◌, ==→eq, arith,
}
use luafan.ByteArray.State.{ByteArray}
use luafan.ByteArray.Read.{read8}
use luafan.ByteArray.Mode.{wrap_buffer}
use luafan.Stream.Get.{get_u30}
use luafan.ObjectBuf.Objects.{Object, Tables}
use luafan.ObjectBuf.Encode.{Numbers, Symbols, has_table_mask}
use luafan.ObjectBuf.Decode.{
  decode_failed, Got, got, fails, not_found, nan_index, endless, no_fuel, and_then, found, Reader,
  new_tables, table_objects, read_tables, make_tables, read_table_section, read_scalars,
  decode_sections, decode_flag, reader, object_at, objectbuf_decode, has_mask,
}
use luafan.ObjectBuf.Readable.{EndsIn, and_then-EndsIn, IsReadable, found-IsReadable}
use luafan.ObjectBuf.Ends.{Any, read_tables-EndsIn, read_scalars-EndsIn}
use luafan.ObjectBuf.Restores.{behind_flag, flag_read}

abbrev count_of : Option ℕ × ByteArray → ℕ
count_of (some n, ba) = n
count_of (none, ba) = 0

abbrev count_in : ℕ → Got Reader → ℕ
count_in flag (got r) = if has_mask flag has_table_mask then count_of (get_u30 r.input) else 0
count_in flag _ = 0

-- The count of tables that stands behind the other sections, 0 where it is not read.
unfoldable pub table_count : Numbers → Symbols → List ℕ → ℕ
unfolding read_scalars read8 wrap_buffer
table_count num sym [] = 0
table_count num sym (f ∷ p) =
    if f == 0
    then 0
    else if f == 1
    then 0
    else count_in f (read_scalars num sym f (reader num sym (behind_flag (f ∷ p))))

-- An object or an error of the code; or a loop without end, where the count is the largest of 32
-- bits.
abbrev pub Ended : ℕ → Got (Object × Tables) → Type 0
Ended count (got x) = Unit
Ended count (fails e) = Unit
Ended count (not_found i) = Unit
Ended count nan_index = Unit
Ended count endless = count ≡ 4294967295
Ended count no_fuel = ⊥

EndsIn-Ended : (count : ℕ) (g : Got (Object × Tables)) → EndsIn Any g → Ended count g
EndsIn-Ended count (got x) h = tt
EndsIn-Ended count (fails e) h = tt
EndsIn-Ended count (not_found i) h = tt
EndsIn-Ended count nan_index h = tt
EndsIn-Ended count endless h = absurd h
EndsIn-Ended count no_fuel h = h

module _ (num : Numbers) (sym : Symbols) where
  abbrev root : Tables × Reader → Got (Object × Tables)
  root (store, r) = got (object_at num sym r.index_map r.last_top, store)

  make_tables-Ended :
      (store : Tables) (n : ℕ) (r : Reader) (x : Option ℕ × ByteArray)
      → EndsIn (λ y. (y.0 < 2 ^ 32) × IsReadable y.1 n) (found decode_failed x)
      → Ended
          (count_of x)
          (and_then (and_then (found decode_failed x) (make_tables num sym store r)) root)
  unfolding make_tables
  make_tables-Ended store n r (none, ba) h = tt
  make_tables-Ended store n r (some count, ba) (small, h) =
      elim (Bool-cases (count == 4294967295)) [
        | inl e ↦ rw (e, Ended) (==→eq count 4294967295 e)
        | inr e ↦
            let m = table_objects count (length store) r.index r.index_map in
            rw (e, Ended)
              (EndsIn-Ended count _ (
                and_then-EndsIn Any Any _ root
                  (and_then-EndsIn Any Any
                    (read_tables num sym count (length store) m ba (store ++ new_tables count)) _
                    (read_tables-EndsIn num sym m n count (length store) ba
                      (store ++ new_tables count) h)
                    λ store1 _. tt)
                  λ x _. tt))
      ]

  section-Ended :
      (store : Tables) (n : ℕ) (r : Reader) (announced : Bool)
      → IsReadable r.input n
      → Ended
          (if announced then count_of (get_u30 r.input) else 0)
          (and_then (read_table_section num sym announced store r) root)
  unfolding read_table_section
  section-Ended store n r false h = tt
  section-Ended store n r true h =
      make_tables-Ended store (n - 1) r (get_u30 r.input)
        (found-IsReadable decode_failed r.input n h)

  tables-Ended :
      (store : Tables) (flag n : ℕ) (g : Got Reader)
      → EndsIn (λ r. IsReadable r.input n) g
      → Ended (count_in flag g) (
          and_then g λ r3.
            and_then (read_table_section num sym (has_mask flag has_table_mask) store r3) root)
  tables-Ended store flag n (got r) h = section-Ended store n r (has_mask flag has_table_mask) h
  tables-Ended store flag n (fails e) h = tt
  tables-Ended store flag n (not_found i) h = tt
  tables-Ended store flag n nan_index h = tt
  tables-Ended store flag n endless h = absurd h
  tables-Ended store flag n no_fuel h = h

  -- On any bytes below 2 GiB and any symbols objectbuf_decode ends with an object or with one of
  -- the errors of the code, or else the count of tables is 2 ^ 32 - 1 and the loop that makes them
  -- does not end.
  pub objectbuf_decode_total :
      (store : Tables) (buf : List ℕ)
      → length buf < 2 ^ 31
      → Ended (table_count num sym buf) (objectbuf_decode num sym store buf)
  unfolding objectbuf_decode decode_flag decode_sections table_count read8 wrap_buffer
  objectbuf_decode_total store [] small = tt
  objectbuf_decode_total store (f ∷ p) small =
      let (read, input) = flag_read f p (omega arith) in
      rw read (elim (Bool-cases (f == 0)) [
        | inl e ↦ rw e tt
        | inr e ↦ elim (Bool-cases (f == 1)) [
          | inl e1 ↦ rw (e, e1) tt
          | inr e1 ↦
              rw (e, e1)
                (tables-Ended store f (length p) _ (
                  read_scalars-EndsIn num sym f (length p) (reader num sym (behind_flag (f ∷ p)))
                    record {
                      valid = input.valid;
                      has_block = input.has_block;
                      mode = input.mode;
                      left = rw input.left (omega arith);
                    }))
        ]
      ])
