-- ===== src/ObjectBuf/Encode.antt =====
-- src/objectbuf.c: objectbuf_encode.
use luafan.Common.{
  ℕ, zero, suc, ◌+◌, ◌%◌, ◌^◌, bit_or, Bool, true, false, ◌&&◌, Option, none, some, List, [], ◌∷◌,
  ltb, leb, if◌then◌else◌, length, take, blit,
}
use luafan.ByteArray.State.{Heap, ByteArray, add_size, bytes_of}
use luafan.ByteArray.Write.{write8, writebuffer}
use luafan.ByteArray.Mode.{alloc, read_ready}
use luafan.Stream.Add.{add_u30, add_d64, add_string, add_bytes}
use luafan.ObjectBuf.Objects.{
  Object, no_object, boolean, whole, string, table, Entries, Tables, entries_at, raw_get, IndexMap,
  index_in,
}
use luafan.ObjectBuf.Pack.{
  Ctx, ctx_init, Packed, packed, index_is_nan, no_fuel, packer, packer_fuel,
}

abbrev pub has_number_mask : ℕ
has_number_mask = 128

abbrev pub has_u30_mask : ℕ
has_u30_mask = 64

abbrev pub has_string_mask : ℕ
has_string_mask = 32

abbrev pub has_table_mask : ℕ
has_table_mask = 8

-- What the code takes from Lua's numbers: the bits of a number as a double, the number of such bits,
-- and the positive integer that a text stands for, if it does (`lua_tonumber` of a string).
pub record Numbers : Type 0 where
  pub to_bits : Object → ℕ
  pub of_bits : ℕ → Object
  pub numeral : List ℕ → Option ℕ

-- The symbols that both sides know: `sym.index`, `sym.map` and `sym.map_vk`.
pub record Symbols : Type 0 where
  pub last : ℕ
  pub map_ : IndexMap
  pub map_vk : ℕ → Object

abbrev pub no_symbols : Symbols
no_symbols = record { last = 2; map_ = []; map_vk = λ i. no_object }

-- an array before it is allocated
abbrev pub blank : ByteArray
blank = record {
  offset = 0;
  total = 0;
  mark = 0;
  buffer = none;
  buflen = 0;
  reading = false;
  wrapbuffer = false;
}

-- the bytes of an array that has been made ready to read
abbrev pub whole_bytes : ByteArray → List ℕ
whole_bytes ba = take ba.total (bytes_of ba.buffer)

-- A section while it is written: its own array, the indices given so far, and how many.
pub record Section : Type 0 where
  pub d : ByteArray
  pub index_map : IndexMap
  pub realcount : ℕ

-- `sym_map[v] or index_map[v]`, which is 0 where neither has the value
unfoldable pub index_of : IndexMap → IndexMap → Object → ℕ
index_of sym_map index_map v = elim (index_in sym_map v) [
  | some i ↦ i
  | none ↦ elim (index_in index_map v) [ some i ↦ i | none ↦ 0 ]
]

abbrev in_symbols : IndexMap → Object → Bool
in_symbols m v = elim (index_in m v) [ some i ↦ true | none ↦ false ]

-- A value that is no symbol is added with the next index.
unfoldable pub add_value :
    (ByteArray → Object → ByteArray) → IndexMap → ℕ → Object → Section → Section
add_value add sym_map index v s = if in_symbols sym_map v then s else record {
  d = add s.d v;
  index_map = (v, (index + (s.realcount + 1)) % 2 ^ 32) ∷ s.index_map;
  realcount = (s.realcount + 1) % 2 ^ 32;
}

unfoldable pub add_values :
    (ByteArray → Object → ByteArray) → IndexMap → ℕ → List Object → Section → Section
unfolding add_value
add_values add sym_map index [] s = s
add_values add sym_map index (v ∷ vs) s =
    add_values add sym_map index vs (add_value add sym_map index v s)

-- The body, its flag byte and the indices.
pub record Body : Type 0 where
  pub stream : ByteArray
  pub flag : ℕ
  pub index_map : IndexMap
  pub index : ℕ

abbrev pub integer_of : Object → ℕ
integer_of (whole n) = n
integer_of _ = 0

abbrev pub bytes_of_string : Object → List ℕ
bytes_of_string (string s) = s
bytes_of_string _ = []

-- The values at 1, 2 and so on, up to the first that is nil.
abbrev pub until_nil : Object → List Object → List Object
until_nil no_object more = []
until_nil v more = v ∷ more

unfoldable pub array_part : ℕ → Entries → ℕ → List Object
array_part zero es i = []
array_part (suc n) es i = until_nil (raw_get es (whole i)) (array_part n es (i + 1))

module _ (h : Heap) (num : Numbers) where
  unfoldable pub add_section :
      (ByteArray → Object → ByteArray) → ℕ → IndexMap → List Object → Body → Body
  unfolding add_values
  add_section add mask sym_map [] b = b
  add_section add mask sym_map (v ∷ vs) b =
      let start : Section = record {
        d = (alloc h blank 0).1;
        index_map = b.index_map;
        realcount = 0;
      } in
      let s = add_values add sym_map b.index (v ∷ vs) start in
      let d = (read_ready s.d).1 in
      record {
        stream = (writebuffer h (add_u30 h b.stream s.realcount) (whole_bytes d)).1;
        flag = bit_or b.flag mask;
        index_map = s.index_map;
        index = (b.index + s.realcount) % 2 ^ 32;
      }

  unfoldable pub add_numbers : IndexMap → List Object → Body → Body
  unfolding add_section
  add_numbers = add_section (λ d v. add_d64 h d (num.to_bits v)) has_number_mask

  unfoldable pub add_u30s : IndexMap → List Object → Body → Body
  unfolding add_section
  add_u30s = add_section (λ d v. add_u30 h d (integer_of v)) has_u30_mask

  unfoldable pub add_strings : IndexMap → List Object → Body → Body
  unfolding add_section
  add_strings = add_section (λ d v. add_string h d (bytes_of_string v)) has_string_mask

  -- The tables have the indices from `index` on.
  unfoldable pub table_indices : ℕ → ℕ → List Object → IndexMap → IndexMap
  table_indices index i [] m = m
  table_indices index i (t ∷ ts) m = table_indices index (i + 1) ts ((t, (index + i) % 2 ^ 32) ∷ m)

  -- `value == (int)value && value <= tb_count && value > 0`, of the key as a number
  unfoldable pub in_array_part : ℕ → Object → Bool
  in_array_part count (whole n) = leb n count && ltb 0 n
  in_array_part count (string s) = elim (num.numeral s) [
    | some n ↦ leb n count && ltb 0 n
    | none ↦ false
  ]
  in_array_part count _ = false

  unfoldable pub add_indices : IndexMap → IndexMap → List Object → ByteArray → ByteArray
  unfolding index_of
  add_indices sym_map m [] d = d
  add_indices sym_map m (v ∷ vs) d =
      add_indices sym_map m vs (add_u30 h d (index_of sym_map m v % 2 ^ 32))

  unfoldable pub add_pairs : IndexMap → IndexMap → ℕ → Entries → ByteArray → ByteArray
  unfolding index_of in_array_part
  add_pairs sym_map m count [] d = d
  add_pairs sym_map m count ((k, v) ∷ es) d = add_pairs sym_map m count es (
      if in_array_part count k
      then d
      else add_u30 h (add_u30 h d (index_of sym_map m k % 2 ^ 32)) (index_of sym_map m v % 2 ^ 32))

  unfoldable pub add_table : IndexMap → IndexMap → Entries → ByteArray → ByteArray
  unfolding array_part add_indices add_pairs
  add_table sym_map m es stream =
      let values = array_part (length es + 1) es 1 in
      let count = length values in
      let d =
        (read_ready
          (add_pairs sym_map m count es (add_indices sym_map m values (alloc h blank 0).1))).1 in
      let d2 = (read_ready (add_u30 h (alloc h blank 0).1 (count % 2 ^ 32))).1 in
      add_bytes h
        (add_bytes h (add_u30 h stream (add_size d.total d2.total % 2 ^ 32)) (whole_bytes d2))
        (whole_bytes d)

  abbrev address : Object → ℕ
  address (table a) = a
  address _ = 0

  unfoldable pub add_tables : Tables → IndexMap → IndexMap → List Object → ByteArray → ByteArray
  unfolding add_table
  add_tables store sym_map m [] stream = stream
  add_tables store sym_map m (t ∷ ts) stream =
      add_tables store sym_map m ts (add_table sym_map m (entries_at store (address t)) stream)

  unfoldable pub add_table_section : Tables → IndexMap → List Object → Body → Body
  unfolding add_tables table_indices
  add_table_section store sym_map [] b = b
  add_table_section store sym_map (t ∷ ts) b =
      let m = table_indices b.index 1 (t ∷ ts) b.index_map in
      record b {
        stream =
            add_tables store sym_map m (t ∷ ts) (add_u30 h b.stream (length (t ∷ ts) % 2 ^ 32));
        flag = bit_or b.flag has_table_mask;
        index_map = m;
      }

  -- a place for the flag, and the indices of the booleans
  abbrev pub first_body : Symbols → Body
  first_body sym = record {
    stream = (write8 h (alloc h blank 64).1 0).1;
    flag = 0;
    index_map = (boolean true, 2) ∷ (boolean false, 1) ∷ [];
    index = sym.last % 2 ^ 32;
  }

  unfoldable pub encode_body : Tables → Symbols → Ctx → Body
  unfolding add_numbers add_u30s add_strings add_table_section
  encode_body store sym c = add_table_section store sym.map_ c.tables (
      add_strings sym.map_ c.strings
        (add_u30s sym.map_ c.u30s (add_numbers sym.map_ c.numbers (first_body sym))))

  -- The flag goes to the first byte.
  unfoldable pub finish_body : Body → List ℕ
  finish_body b =
      let stream = (read_ready b.stream).1 in
      take stream.total (blit (bytes_of stream.buffer) 0 (b.flag ∷ []))

  pub data Encoded : Type 0 where
    bytes : List ℕ → Encoded
    no_argument : Encoded
    nan_error : Encoded
    out_of_fuel : Encoded

  abbrev pub encode_packed : Tables → Symbols → Packed → Encoded
  encode_packed store sym (packed c) = bytes (finish_body (encode_body store sym c))
  encode_packed store sym index_is_nan = nan_error
  encode_packed store sym no_fuel = out_of_fuel

  -- `lua_pushstring` of "\x00" is the empty string.
  unfoldable pub objectbuf_encode : Tables → Symbols → Object → Encoded
  unfolding encode_body finish_body packer packer_fuel ctx_init
  objectbuf_encode store sym no_object = no_argument
  objectbuf_encode store sym (boolean b) = bytes (if b then 1 ∷ [] else [])
  objectbuf_encode store sym v =
      encode_packed store sym (packer store (packer_fuel store) v ctx_init)
