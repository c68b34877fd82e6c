-- ===== src/Stream/RoundTrip.antt =====
-- src/stream_ffi.c: messages of fields, added and then got.
use luafan.Common.{
  ℕ, ◌+◌, ◌/◌, ◌^◌, ◌≤◌, ◌≡◌, ◌∙◌, refl, ap, sym, true, false, Option, some, List, [], ◌∷◌, ◌++◌,
  length, All, append_assoc, append-nil, length-append, map, arith,
}
use luafan.Common.Bits.{bit_and_mask}
use luafan.Common.Words.{le_bytes}
use luafan.ByteArray.State.{Heap, ByteArray, is_null}
use luafan.ByteArray.Write.{write16, write64d, writebuffer}
use luafan.ByteArray.Read.{read16, read64d, readbuffer}
use luafan.ByteArray.Mode.{read_ready}
use luafan.ByteArray.Inv.{IsValid}
use luafan.ByteArray.Contents.{written, unread, length-written}
use luafan.ByteArray.Reads.{read8-cons}
use luafan.ByteArray.Modes.{read_ready_lem, read_ready_keeps}
use luafan.ByteArray.Append.{
  IsWriting, Appended, Appended-trans, offset-Appended, write_value-Appended, write8-Appended,
}
use luafan.Stream.Add.{add_u8, add_u16, add_u24, add_d64, prepare_get}
use luafan.Stream.Get.{get_u8, get_u16, get_u24, get_s24, get_d64}
use luafan.Stream.Varint.{encode}
use luafan.Stream.U30.{add_u30-Appended, get_u30-encode, advance}
use luafan.Stream.Text.{add_string-Appended, get_string-encode}
use luafan.Stream.Fixed.{
  read_prefix, read_word, bytes_24, three_bytes-bytes_24, pattern_24, signed_24-bytes_24,
}
use mathlib.Core.Option
use luafan.Stream.Message.{
  Field, u8, u16, u24, u30, d64, s24, text, IsField, wire, wires, size, add_field, get_field,
  add_fields, get_fields,
}

module _ (h : Heap) (grants : (n : ℕ) → h.grants n ≡ true) where
  add_u24-Appended :
      (ba : ByteArray) (w : ℕ)
      → IsWriting ba
      → ba.offset + 3 ≤ 2 ^ 62
      → Appended ba (add_u24 h ba w) (bytes_24 w)
  unfolding add_u24 writebuffer
  add_u24-Appended ba w k fits =
      rw
        (
          bit_and_mask 8 w,
          bit_and_mask 8 (w / 2 ^ 8),
          bit_and_mask 8 (w / 2 ^ 16),
          add_u24,
          writebuffer,
        )
        (write_value-Appended h grants ba (bytes_24 w) k fits)

  add_field-Appended :
      (f : Field) (ba : ByteArray)
      → IsField f
      → IsWriting ba
      → ba.offset + length (wire f) + 5 ≤ 2 ^ 62
      → Appended ba (add_field h ba f) (wire f)
  unfolding add_field add_u8 add_u16 add_d64 write16 write64d
  add_field-Appended (u8 n) ba i w fits = write8-Appended h grants ba n w (omega arith)
  add_field-Appended (u16 n) ba i w fits =
      write_value-Appended h grants ba (le_bytes 2 n) w (omega arith)
  add_field-Appended (u24 n) ba i w fits = add_u24-Appended ba n w (omega arith)
  add_field-Appended (u30 n) ba i w fits = add_u30-Appended h grants ba n w i (omega arith)
  add_field-Appended (d64 n) ba i w fits =
      write_value-Appended h grants ba (le_bytes 8 n) w (omega arith)
  add_field-Appended (s24 z) ba i w fits = add_u24-Appended ba (pattern_24 z) w (omega arith)
  add_field-Appended (text bs) ba i w fits =
      add_string-Appended h grants ba bs w i
        (omega (arith, length-append (encode 5 (length bs)) bs))

  add_fields-written :
      (fs : List Field) (ba : ByteArray)
      → All IsField fs
      → IsWriting ba
      → ba.offset + size fs + 5 ≤ 2 ^ 62
      → Appended ba (add_fields h ba fs) (wires fs)
  unfolding add_fields
  add_fields-written [] ba i w fits = record {
    writing = w;
    bytes = sym (append-nil (written ba));
    mark = refl;
    null = λ n. n;
  }
  add_fields-written (f ∷ fs) ba i w fits =
      let sum = length-append (wire f) (wires fs) in
      let first = add_field-Appended f ba i.0 w (omega (arith, sum)) in
      Appended-trans first (
        add_fields-written fs (add_field h ba f) i.1 first.writing
          (omega (arith, sum, offset-Appended w.valid first)))

-- What reading `f` from the bytes in front of `rest` does.
abbrev Got : ByteArray → Field → List ℕ → Type 0
Got ba f rest =
    (c : ℕ) × (ba.offset + c ≤ ba.total)
    × (get_field f ba ≡ (some f, advance ba c))
    × (unread (advance ba c) ≡ rest)

get_24 :
    (ba : ByteArray) (w : ℕ) (rest : List ℕ)
    → IsValid ba
    → unread ba ≡ bytes_24 w ++ rest
    → (ba.offset + 3 ≤ ba.total)
      × (readbuffer ba 3 ≡ (some (bytes_24 w), advance ba 3))
      × (unread (advance ba 3) ≡ rest)
unfolding readbuffer
get_24 ba w rest v e = read_prefix ba (bytes_24 w) rest v e

get_field-wire :
    (f : Field) (ba : ByteArray) (rest : List ℕ)
    → IsField f
    → IsValid ba
    → is_null ba.buffer ≡ false
    → ba.reading ≡ true
    → unread ba ≡ wire f ++ rest
    → Got ba f rest
unfolding get_field get_u8 get_u16 get_u24 get_s24 get_d64 read16 read64d
get_field-wire (u8 n) ba rest i v p q e =
    let (room, got, left) = read8-cons ba n rest v e in (1, room, rw got, left)
get_field-wire (u16 n) ba rest i v p q e =
    let (room, got, left) = read_word 2 n ba rest v i e in
    (2, room, ap (λ (r : Option ℕ × ByteArray). (Option.map u16 r.0, r.1)) got, left)
get_field-wire (u24 n) ba rest i v p q e =
    let (room, got, left) = get_24 ba n rest v e in
    (3, room, rw got (ap (λ x. (some (u24 x), advance ba 3)) (three_bytes-bytes_24 n i)), left)
get_field-wire (u30 n) ba rest i v p q e =
    let (c, room, got, left) = get_u30-encode ba n rest v i e in (c, room, rw got, left)
get_field-wire (d64 n) ba rest i v p q e =
    let (room, got, left) = read_word 8 n ba rest v i e in
    (8, room, ap (λ (r : Option ℕ × ByteArray). (Option.map d64 r.0, r.1)) got, left)
get_field-wire (s24 z) ba rest i v p q e =
    let (room, got, left) = get_24 ba (pattern_24 z) rest v e in
    (3, room, rw got (ap (λ x. (some (s24 x), advance ba 3)) (signed_24-bytes_24 z i)), left)
get_field-wire (text bs) ba rest i v p q e =
    let (c, room, got, left) =
      get_string-encode ba bs rest v p q i (e ∙ append_assoc (encode 5 (length bs)) bs rest) in
    (c, room, rw got, left)

get_fields-wires :
    (fs : List Field) (ba : ByteArray) (rest : List ℕ)
    → All IsField fs
    → IsValid ba
    → is_null ba.buffer ≡ false
    → ba.reading ≡ true
    → unread ba ≡ wires fs ++ rest
    → get_fields fs ba ≡ map some fs
unfolding get_fields
get_fields-wires [] ba rest i v p q e = refl
get_fields-wires (f ∷ fs) ba rest i v p q e =
    let (c, room, got, left) =
      get_field-wire f ba (wires fs ++ rest) i.0 v p q
        (e ∙ append_assoc (wire f) (wires fs) rest) in
    let v' : IsValid (advance ba c) = omega arith in
    rw got (ap (◌∷◌ (some f)) (get_fields-wires fs (advance ba c) rest i.1 v' p q left))

-- A message of fields added to an empty stream, of at most 2 ^ 61 bytes on a heap that grants what
-- is asked, comes back field by field after prepare_get.
pub get_fields-add_fields :
    (h : Heap)
    → ((n : ℕ) → h.grants n ≡ true)
    → (fs : List Field) (ba : ByteArray) → All IsField fs
    → IsWriting ba
    → is_null ba.buffer ≡ false
    → written ba ≡ []
    → size fs ≤ 2 ^ 61
    → get_fields fs (prepare_get (add_fields h ba fs)).1 ≡ map some fs
unfolding prepare_get
get_fields-add_fields h grants fs ba i w n e fits =
    let start : ba.offset ≡ 0 = omega (arith, length-written ba w.valid, ap (length {0}) e) in
    let a = add_fields-written h grants fs ba i w (omega arith) in
    let full = add_fields h ba fs in
    let (ok, valid, mode, handed) = read_ready_lem full a.writing.valid (a.null n) a.writing.mode in
    let all = handed ∙ a.bytes ∙ ap (λ t. t ++ wires fs) e in
    get_fields-wires fs (read_ready full).1 [] i valid
      (ap is_null (read_ready_keeps full).0 ∙ a.null n) mode (all ∙ sym (append-nil (wires fs)))
