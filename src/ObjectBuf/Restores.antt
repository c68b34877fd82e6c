-- ===== src/ObjectBuf/Restores.antt =====
-- src/objectbuf.c: decode of a flag and one value.
use luafan.Common.{
  ℕ, ◌+◌, ◌%◌, ◌^◌, ◌<◌, ◌≡◌, refl, sym, ap, ◌∙◌, true, false, some, List, [], ◌∷◌, ◌++◌,
  append-nil, length, length-append, take_all, ◌==◌, arith,
}
use luafan.Common.Words.{le_bytes, length-le_bytes}
use luafan.ByteArray.State.{ByteArray, is_null}
use luafan.ByteArray.Read.{read8, read64d}
use luafan.ByteArray.Mode.{wrap_buffer}
use luafan.ByteArray.Inv.{IsValid}
use luafan.ByteArray.Contents.{unread}
use luafan.ByteArray.Reads.{read8-cons}
use luafan.ByteArray.Modes.{wrap_buffer-IsValid}
use luafan.Stream.Get.{get_u30, get_d64, get_string}
use luafan.Stream.Varint.{encode, length-encode}
use luafan.Stream.U30.{get_u30-encode, advance}
use luafan.Stream.Fixed.{read_word}
use luafan.Stream.Text.{get_string-encode}
use luafan.ObjectBuf.Objects.{Object, whole, string, Tables}
use luafan.ObjectBuf.Encode.{
  Numbers, no_symbols, blank, has_number_mask, has_u30_mask, has_string_mask, has_table_mask,
}
use luafan.ObjectBuf.Decode.{
  Failure, decode_failed, no_number, no_number_count, as_object, as_string, got_string, Got, got,
  and_then, found, Reader, put_index, read_values, read_section, read_table_section,
  decode_sections, read_scalars, decode_flag, reader, objectbuf_decode, has_mask,
}

-- An array in the read mode with a block.
pub record IsInput (ba : ByteArray) (bs : List ℕ) : Type 0 where
  pub valid : IsValid ba
  pub has_block : is_null ba.buffer ≡ false
  pub mode : ba.reading ≡ true
  pub left : unread ba ≡ bs

-- A section of one value.
one_value :
    (e : Failure) (get : ℕ → ℕ → ByteArray → Got (Object × ByteArray)) (r : Reader) (p : List ℕ)
    (v : Object)
    → IsInput r.input (encode 5 1 ++ p)
    → ((d : ByteArray) → IsInput d p → (d1 : ByteArray) × (get 1 1 d ≡ got (v, d1)))
    → (d1 : ByteArray) × (read_section e get true r
        ≡ got (record r {
          input = d1;
          index = (r.index + 1) % 2 ^ 32;
          index_map = put_index ((r.index + 1) % 2 ^ 32) v r.index_map;
          last_top = (r.index + 1) % 2 ^ 32;
        }))
unfolding read_section read_values
one_value e get r p v i gets =
    let (c, room, count, rest) = get_u30-encode r.input 1 p i.valid (omega arith) i.left in
    let next : IsInput (advance r.input c) p = record {
      valid = let q = i.valid in omega arith;
      has_block = i.has_block;
      mode = i.mode;
      left = rest;
    } in
    let (d1, read) = gets (advance r.input c) next in (d1, rw (count, read) refl)

-- The array behind the flag.
abbrev pub behind_flag : List ℕ → ByteArray
behind_flag bs = record (wrap_buffer blank bs (length bs)).1 {
  offset = (wrap_buffer blank bs (length bs)).1.offset + 1;
}

pub flag_read :
    (f : ℕ) (p : List ℕ)
    → length p < 2 ^ 31
    → (read8 (wrap_buffer blank (f ∷ p) (length (f ∷ p))).1 ≡ (some f, behind_flag (f ∷ p)))
      × IsInput (behind_flag (f ∷ p)) p
unfolding wrap_buffer
flag_read f p small =
    let bs = f ∷ p in
    let w = wrap_buffer-IsValid blank bs (length bs) (omega arith) (omega arith) in
    let whole_text = w.1 ∙ take_all (length bs) bs (omega arith) in
    let (room, read, rest) = read8-cons (wrap_buffer blank bs (length bs)).1 f p w.0 whole_text in
    (
      read,
      record { valid = let q = w.0 in omega arith; has_block = refl; mode = refl; left = rest },
    )

-- A section that the flag does not announce.
no_section :
    (e : Failure) (get : ℕ → ℕ → ByteArray → Got (Object × ByteArray)) (r : Reader)
    → read_section e get false r ≡ got r
unfolding read_section
no_section e get r = refl

-- How the sections of numbers, of integers and of strings are read.
abbrev get_number : Numbers → ℕ → ℕ → ByteArray → Got (Object × ByteArray)
get_number num count i ba =
    and_then (found (no_number i count) (get_d64 ba)) (as_object num.of_bits)

abbrev get_whole : ℕ → ℕ → ByteArray → Got (Object × ByteArray)
get_whole count i ba = and_then (found decode_failed (get_u30 ba)) (as_object whole)

abbrev get_text : ℕ → ℕ → ByteArray → Got (Object × ByteArray)
get_text count i ba = and_then (got_string (get_string ba)) as_string

module _ (num : Numbers) (store : Tables) where
  -- The three sections, one after the other, without a section of tables.
  in_sections :
      (flag : ℕ) (r r1 r2 r3 : Reader)
      → has_mask flag has_table_mask ≡ false
      → (read_section no_number_count (get_number num) (has_mask flag has_number_mask) r ≡ got r1)
      → (read_section decode_failed get_whole (has_mask flag has_u30_mask) r1 ≡ got r2)
      → (read_section decode_failed get_text (has_mask flag has_string_mask) r2 ≡ got r3)
      → decode_sections num no_symbols store flag r ≡ got (r3.index_map r3.last_top, store)
  unfolding decode_sections read_scalars read_table_section
  in_sections flag r r1 r2 r3 none_ numbers wholes texts = rw (numbers, wholes, texts, none_) refl

  gets_u30 :
      (n : ℕ)
      → n < 2 ^ 32
      → (d : ByteArray) → IsInput d (encode 5 n)
      → (d1 : ByteArray) × (get_whole 1 1 d ≡ got (whole n, d1))
  gets_u30 n small d i =
      let (c, room, read, rest) =
        get_u30-encode d n [] i.valid small (i.left ∙ sym (append-nil (encode 5 n))) in
      (advance d c, rw read refl)

  gets_string :
      (s : List ℕ)
      → length s < 2 ^ 31
      → (d : ByteArray) → IsInput d (encode 5 (length s) ++ s)
      → (d1 : ByteArray) × (get_text 1 1 d ≡ got (string s, d1))
  gets_string s small d i =
      let (c, room, read, rest) =
        get_string-encode d s [] i.valid i.has_block i.mode (omega arith)
          (i.left ∙ ap (λ t. encode 5 (length s) ++ t) (sym (append-nil s))) in
      (advance d c, rw read refl)

  gets_number :
      (v : Object)
      → num.to_bits v < 2 ^ 64
      → num.of_bits (num.to_bits v) ≡ v
      → (d : ByteArray) → IsInput d (le_bytes 8 (num.to_bits v))
      → (d1 : ByteArray) × (get_number num 1 1 d ≡ got (v, d1))
  unfolding get_d64 read64d
  gets_number v small back d i =
      let w = num.to_bits v in
      let (room, read, rest) =
        read_word 8 w d [] i.valid small (i.left ∙ sym (append-nil (le_bytes 8 w))) in
      (advance d 8, rw read (rw back refl))

  sections-u30 :
      (n : ℕ) (input : ByteArray)
      → n < 2 ^ 32
      → IsInput input (encode 5 1 ++ encode 5 n)
      → decode_sections num no_symbols store 64 (reader num no_symbols input) ≡ got (whole n, store)
  sections-u30 n input small i =
      let r = reader num no_symbols input in
      let (d1, read) =
        one_value decode_failed get_whole r (encode 5 n) (whole n) i (gets_u30 n small) in
      in_sections 64 r r _ _ refl (no_section no_number_count (get_number num) r) read
        (no_section decode_failed get_text _)

  -- The flag, and the sections behind it.
  behind :
      (f : ℕ) (p : List ℕ) (v : Object)
      → (f == 0 ≡ false)
      → (f == 1 ≡ false)
      → length p < 2 ^ 31
      → ((input : ByteArray)
          → IsInput input p
          → decode_sections num no_symbols store f (reader num no_symbols input) ≡ got (v, store))
      → objectbuf_decode num no_symbols store (f ∷ p) ≡ got (v, store)
  unfolding objectbuf_decode decode_flag
  behind f p v not_0 not_1 small reads =
      let (read, input) = flag_read f p small in
      rw (read, not_0, not_1) (reads (behind_flag (f ∷ p)) input)

  pub decode-u30 :
      (n : ℕ)
      → n < 2 ^ 32
      → objectbuf_decode num no_symbols store (64 ∷ (encode 5 1 ++ encode 5 n))
        ≡ got (whole n, store)
  decode-u30 n small =
      let sizes = length-append (encode 5 1) (encode 5 n) in
      behind 64 (encode 5 1 ++ encode 5 n) (whole n) refl refl
        (omega (arith, sizes, length-encode 4 1, length-encode 4 n))
        λ input i.
          let r = reader num no_symbols input in
          let (d1, read) =
            one_value decode_failed get_whole r (encode 5 n) (whole n) i (gets_u30 n small) in
          in_sections 64 r r _ _ refl (no_section no_number_count (get_number num) r) read
            (no_section decode_failed get_text _)

  pub decode-string :
      (s : List ℕ)
      → length s < 2 ^ 30
      → objectbuf_decode num no_symbols store (32 ∷ (encode 5 1 ++ (encode 5 (length s) ++ s)))
        ≡ got (string s, store)
  decode-string s small =
      let p = encode 5 (length s) ++ s in
      behind 32 (encode 5 1 ++ p) (string s) refl refl
        (omega (
          arith,
          length-append (encode 5 1) p,
          length-append (encode 5 (length s)) s,
          length-encode 4 1,
          length-encode 4 (length s),
        ))
        λ input i.
          let r = reader num no_symbols input in
          let (d1, read) =
            one_value decode_failed get_text r p (string s) i (gets_string s (omega arith)) in
          in_sections 32 r r r _ refl (no_section no_number_count (get_number num) r)
            (no_section decode_failed get_whole r) read

  pub decode-number :
      (v : Object)
      → num.to_bits v < 2 ^ 64
      → num.of_bits (num.to_bits v) ≡ v
      → objectbuf_decode num no_symbols store (128 ∷ (encode 5 1 ++ le_bytes 8 (num.to_bits v)))
        ≡ got (v, store)
  decode-number v small back =
      let p = le_bytes 8 (num.to_bits v) in
      behind 128 (encode 5 1 ++ p) v refl refl
        (omega (
          arith,
          length-append (encode 5 1) p,
          length-le_bytes 8 (num.to_bits v),
          length-encode 4 1,
        ))
        λ input i.
          let r = reader num no_symbols input in
          let (d1, read) =
            one_value (no_number_count) (get_number num) r p v i (gets_number v small back) in
          in_sections 128 r _ _ _ refl read (no_section decode_failed get_whole _)
            (no_section decode_failed get_text _)
