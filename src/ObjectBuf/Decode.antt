-- ===== src/ObjectBuf/Decode.antt =====
-- src/objectbuf.c: objectbuf_decode.
use luafan.Common.{
  ℕ, zero, suc, ◌+◌, ◌%◌, ◌^◌, bit_and, Bool, true, false, not, Option, none, some, List, [], ◌∷◌,
  ◌++◌, ltb, ◌==◌, if◌then◌else◌, length,
}
use luafan.ByteArray.State.{ByteArray}
use luafan.ByteArray.Read.{read8}
use luafan.ByteArray.Mode.{wrap_buffer, read_available}
use luafan.Stream.Get.{Text, get_u30, get_d64, get_string}
use luafan.ObjectBuf.Objects.{
  Object, no_object, boolean, whole, string, table, Entries, Tables, same_object,
}
use luafan.ObjectBuf.Pack.{is_nan}
use luafan.ObjectBuf.Encode.{
  Numbers, Symbols, blank, has_number_mask, has_u30_mask, has_string_mask, has_table_mask,
}

-- The messages beside nil, and the raised errors; `endless` is a loop that the code does not leave, and
-- `no_fuel` has no counterpart in it.
pub data Failure : Type 0 where
  no_number_count : Failure
  no_number : ℕ → ℕ → Failure
  decode_failed no_count no_i_value : Failure

pub data Got {ℓ} (A : Type ℓ) : Type ℓ where
  got : A → Got A
  fails : Failure → Got A
  not_found : ℕ → Got A
  nan_index : Got A
  endless : Got A
  no_fuel : Got A

module _ {ℓ κ} {A : Type ℓ} {B : Type κ} where
  abbrev pub and_then : Got A → (A → Got B) → Got B
  and_then (got a) f = f a
  and_then (fails e) f = fails e
  and_then (not_found i) f = not_found i
  and_then nan_index f = nan_index
  and_then endless f = endless
  and_then no_fuel f = no_fuel

-- `index_map` with `no_object` for nil, the last index, and where the root stands (an `int`, where the
-- model has 32 bits without a sign).
pub record Reader : Type 0 where
  pub input : ByteArray
  pub index : ℕ
  pub index_map : ℕ → Object
  pub last_top : ℕ

abbrev pub put_index : ℕ → Object → (ℕ → Object) → ℕ → Object
put_index i v m = λ j. if j == i then v else m j

abbrev pub found : Failure → Option ℕ × ByteArray → Got (ℕ × ByteArray)
found e (some n, ba) = got (n, ba)
found e (none, ba) = fails e

-- The values of a section, from the `i`-th on. The code compares `i` with a count of 32 bits; each
-- value takes a byte at least, so that the input ends before `i` wraps.
unfoldable pub read_values :
    (ℕ → ByteArray → Got (Object × ByteArray)) → ℕ → ℕ → Reader → Got Reader
read_values get zero i r = got r
read_values get (suc n) i r = and_then (get i r.input) λ (v, ba).
    read_values get n (i + 1) (record r {
      input = ba;
      index = (r.index + 1) % 2 ^ 32;
      index_map = put_index ((r.index + 1) % 2 ^ 32) v r.index_map;
    })

abbrev pub has_mask : ℕ → ℕ → Bool
has_mask flag mask = not (bit_and flag mask == 0)

-- a section that the flag announces: its count, then its values
unfoldable pub read_section :
    Failure → (ℕ → ℕ → ByteArray → Got (Object × ByteArray)) → Bool → Reader → Got Reader
unfolding read_values
read_section e get announced r =
    if not announced
    then got r
    else and_then (found e (get_u30 r.input)) λ (count, ba).
      read_values (get count) count 1 (record r { input = ba; last_top = (r.index + 1) % 2 ^ 32 })

abbrev pub got_string : Text × ByteArray → Got (List ℕ × ByteArray)
got_string (t, ba) = elim t.buff [ some s ↦ got (s, ba) | none ↦ fails decode_failed ]

abbrev pub as_object : (ℕ → Object) → ℕ × ByteArray → Got (Object × ByteArray)
as_object make (n, ba) = got (make n, ba)

abbrev pub as_string : List ℕ × ByteArray → Got (Object × ByteArray)
as_string (s, ba) = got (string s, ba)

-- `lua_rawset` with a value that is not nil
unfoldable pub raw_set : Object → Object → Entries → Entries
unfolding same_object
raw_set k v [] = (k, v) ∷ []
raw_set k v ((j, w) ∷ es) = if same_object j k then (j, v) ∷ es else (j, w) ∷ raw_set k v es

abbrev pub set_entries : Tables → ℕ → Entries → Tables
set_entries [] a es = []
set_entries (t ∷ ts) zero es = es ∷ ts
set_entries (t ∷ ts) (suc a) es = t ∷ set_entries ts a es

abbrev pub new_tables : ℕ → Tables
new_tables zero = []
new_tables (suc n) = [] ∷ new_tables n

-- The tables of a section have the indices from `index + 1` on, and addresses from `base` on.
unfoldable pub table_objects : ℕ → ℕ → ℕ → (ℕ → Object) → ℕ → Object
table_objects zero base index m = m
table_objects (suc n) base index m =
    table_objects n (base + 1) (index + 1) (put_index ((index + 1) % 2 ^ 32) (table base) m)

-- `index not found`
abbrev pub or_missing : ℕ → Object → Got Object
or_missing i no_object = not_found i
or_missing i v = got v

module _ (num : Numbers) (sym : Symbols) where
  -- `sym_map_vk[i] or index_map[i]`
  abbrev pub object_at : (ℕ → Object) → ℕ → Object
  object_at m i = elim (sym.map_vk i) [ no_object ↦ m i | _ ↦ sym.map_vk i ]

  unfoldable pub resolve : (ℕ → Object) → ℕ → Got Object
  resolve m i = or_missing i (object_at m i)

  -- the values at 1, 2 and so on of a table
  unfoldable pub read_array : (ℕ → Object) → ℕ → ℕ → ByteArray → Entries → Got (Entries × ByteArray)
  unfolding resolve raw_set
  read_array m zero j d es = got (es, d)
  read_array m (suc n) j d es =
      and_then (found no_i_value (get_u30 d))
        λ (vi, d1). and_then (resolve m vi) λ v. read_array m n (j + 1) d1 (raw_set (whole j) v es)

  unfoldable pub set_pair : Object → Object → Entries → Got Entries
  unfolding raw_set
  set_pair k v es = if is_nan k then nan_index else got (raw_set k v es)

  -- the other entries, as long as bytes are left; a round takes two of them at least
  unfoldable pub read_pairs : ℕ → (ℕ → Object) → ByteArray → Entries → Got Entries
  unfolding resolve set_pair
  read_pairs zero m d es = no_fuel
  read_pairs (suc f) m d es = elim (ltb 0 (read_available d)) [
    | true ↦ and_then (found decode_failed (get_u30 d)) λ (ki, d1).
        and_then (found decode_failed (get_u30 d1)) λ (vi, d2).
          and_then (resolve m ki) λ k.
            and_then (resolve m vi) λ v. and_then (set_pair k v es) λ es1. read_pairs f m d2 es1
    | false ↦ got es
  ]

  unfoldable pub read_table : (ℕ → Object) → List ℕ → Got Entries
  unfolding read_array read_pairs
  read_table m s =
      and_then (found no_count (get_u30 (wrap_buffer blank s (length s)).1)) λ (count, d).
        and_then (read_array m count 1 d []) λ (es, d1). read_pairs (length s + 1) m d1 es

  -- the contents of the tables, at addresses from `a` on
  unfoldable pub read_tables : ℕ → ℕ → (ℕ → Object) → ByteArray → Tables → Got Tables
  unfolding read_table
  read_tables zero a m input store = got store
  read_tables (suc n) a m input store = and_then (got_string (get_string input)) λ (s, input1).
      and_then (read_table m s) λ es. read_tables n (a + 1) m input1 (set_entries store a es)

  -- The loop `uint32_t i = 1; i <= count; i++` that makes the tables ends unless the count is the
  -- largest of 32 bits.
  unfoldable pub make_tables : Tables → Reader → ℕ × ByteArray → Got (Tables × Reader)
  unfolding read_tables table_objects
  make_tables store r (count, ba) =
      let m = table_objects count (length store) r.index r.index_map in
      let filled =
        and_then (read_tables count (length store) m ba (store ++ new_tables count)) λ store1.
          got (store1, record r { input = ba; index_map = m; last_top = (r.index + 1) % 2 ^ 32 }) in
      if count == 4294967295 then endless else filled

  unfoldable pub read_table_section : Bool → Tables → Reader → Got (Tables × Reader)
  unfolding make_tables
  read_table_section announced store r =
      if not announced
      then got (store, r)
      else and_then (found decode_failed (get_u30 r.input)) (make_tables store r)

  -- the sections of numbers, of integers and of strings
  unfoldable pub read_scalars : ℕ → Reader → Got Reader
  unfolding read_section
  read_scalars flag r =
      and_then
        (read_section no_number_count
          (λ count i ba. and_then (found (no_number i count) (get_d64 ba)) (as_object num.of_bits))
          (has_mask flag has_number_mask) r)
        λ r1.
          and_then
            (read_section decode_failed
              (λ count i ba. and_then (found decode_failed (get_u30 ba)) (as_object whole))
              (has_mask flag has_u30_mask) r1)
            λ r2.
              read_section decode_failed
                (λ count i ba. and_then (got_string (get_string ba)) as_string)
                (has_mask flag has_string_mask) r2

  unfoldable pub decode_sections : Tables → ℕ → Reader → Got (Object × Tables)
  unfolding read_scalars read_table_section
  decode_sections store flag r = and_then (read_scalars flag r) λ r3.
      and_then (read_table_section (has_mask flag has_table_mask) store r3)
        λ (store1, r4). got (object_at r4.index_map r4.last_top, store1)

  abbrev pub reader : ByteArray → Reader
  reader input = record {
    input = input;
    index = sym.last % 2 ^ 32;
    index_map = put_index 2 (boolean true) (put_index 1 (boolean false) (λ i. no_object));
    last_top = (sym.last + 1) % 2 ^ 32;
  }

  -- Without a byte the flag stays 0.
  unfoldable pub decode_flag : Tables → Option ℕ × ByteArray → Got (Object × Tables)
  unfolding decode_sections
  decode_flag store (none, input) = got (boolean false, store)
  decode_flag store (some flag, input) =
      if flag == 0
      then got (boolean false, store)
      else if flag == 1
      then got (boolean true, store)
      else decode_sections store flag (reader input)

  unfoldable pub objectbuf_decode : Tables → List ℕ → Got (Object × Tables)
  unfolding decode_flag
  objectbuf_decode store buf = decode_flag store (read8 (wrap_buffer blank buf (length buf)).1)
