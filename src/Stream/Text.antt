-- ===== src/Stream/Text.antt =====
-- src/stream_ffi.c: strings with their length in front.
use luafan.Common.{
  ℕ, ◌+◌, ◌-◌, ◌%◌, ◌^◌, ◌≤◌, ◌<◌, ◌≡◌, ◌∙◌, sym, ap, true, false, none, some, List, ◌++◌, ltb,
  length, take, drop, slice, length-append, take-length_append, drop-length_append, arith,
}
use luafan.ByteArray.State.{Heap, ByteArray, is_null, sub_size, add_size, bytes_of}
use luafan.ByteArray.Write.{writebuffer}
use luafan.ByteArray.Read.{readbuffer}
use luafan.ByteArray.Mode.{read_available}
use luafan.ByteArray.Inv.{IsValid}
use luafan.ByteArray.Contents.{unread, length-unread}
use luafan.ByteArray.Reads.{read_enough, take-unread, unread-advanced}
use luafan.ByteArray.Modes.{read_available-unread}
use luafan.ByteArray.Append.{
  IsWriting, Appended, Appended-trans, offset-Appended, write_value-Appended,
}
use luafan.Stream.Add.{add_u30, add_string}
use luafan.Stream.Get.{get_string}
use luafan.Stream.Varint.{encode, decode, length-encode, decode_bounds}
use mathlib.Core.Option
use luafan.Stream.U30.{add_u30-Appended, get_u30-encode, get_u30-decode, advance, advance-advance}

-- On a heap that grants what is asked, `add_string` appends the length and then the text.
pub add_string-Appended :
    (h : Heap)
    → ((n : ℕ) → h.grants n ≡ true)
    → (ba : ByteArray) (text : List ℕ) → IsWriting ba
    → length text < 2 ^ 32
    → ba.offset + 5 + length text ≤ 2 ^ 62
    → Appended ba (add_string h ba text) (encode 5 (length text) ++ text)
unfolding add_string writebuffer
add_string-Appended h grants ba text w small fits =
    let kept : length text % 2 ^ 32 ≡ length text = omega arith in
    let first = add_u30-Appended h grants ba (length text) w small (omega arith) in
    rw (kept, add_string)
      (Appended-trans first (
        write_value-Appended h grants (add_u30 h ba (length text)) text first.writing
          (omega (arith, offset-Appended w.valid first, length-encode 4 (length text)))))

-- Where the unread bytes begin with a text and its length, `get_string` returns the text and leaves
-- what stands behind it.
pub get_string-encode :
    (ba : ByteArray) (text rest : List ℕ)
    → IsValid ba
    → is_null ba.buffer ≡ false
    → ba.reading ≡ true
    → length text < 2 ^ 32
    → unread ba ≡ encode 5 (length text) ++ (text ++ rest)
    → (c : ℕ) × (ba.offset + c ≤ ba.total)
      × (get_string ba ≡ (record { buff = some text; buflen = length text }, advance ba c))
      × (unread (advance ba c) ≡ rest)
unfolding get_string readbuffer
get_string-encode ba text rest v p q small e =
    let (c, fits, got, left) = get_u30-encode ba (length text) (text ++ rest) v small e in
    let ba' = advance ba c in
    let v' : IsValid ba' = omega arith in
    let there : read_available ba' ≡ length (text ++ rest) =
      read_available-unread ba' v' p q ∙ ap length left in
    let enough : ltb (read_available ba') (length text) ≡ false =
      ground (arith, length-append text rest) in
    let room : ba'.offset + length text ≤ ba'.total =
      omega (arith, length-unread ba' v', ap (length {0}) left, length-append text rest) in
    let cut : slice (bytes_of ba'.buffer) ba'.offset (length text) ≡ text =
      take-unread ba' (length text) v' room
      ∙ ap (take (length text)) left
      ∙ take-length_append text rest in
    let over : unread (advance ba' (length text)) ≡ rest =
      unread-advanced ba' (length text) v' room
      ∙ ap (drop (length text)) left
      ∙ drop-length_append text rest in
    let far = advance-advance ba c (length text) in
    (
      c + length text,
      omega arith,
      rw (got, enough, read_enough ba' (length text) v' room, cut)
          (ap (λ x. (record { buff = some text; buflen = length text }, x)) far),
      ap unread (sym far) ∙ over,
    )

-- Where no length can be read, get_string on a valid array in the read mode leaves the array as it
-- was, and asks for one byte more than is unread.
pub get_string_no_length :
    (ba : ByteArray)
    → IsValid ba
    → is_null ba.buffer ≡ false
    → ba.reading ≡ true
    → decode 5 0 0 (unread ba) ≡ none
    → get_string ba ≡ (record { buff = none; buflen = length (unread ba) + 1 }, ba)
unfolding get_string
get_string_no_length ba v p q e =
    let (c, fits, got, left) = get_u30-decode ba v in
    let nothing = got ∙ ap (λ d. (Option.map (λ x. x.0) d, advance ba c)) e in
    let count : add_size (read_available ba) 1 ≡ length (unread ba) + 1 =
      omega (arith, read_available-unread ba v p q, length-unread ba v) in
    rw nothing (ap (λ n. (record { buff = none; buflen = n }, ba)) count)

-- Where the text behind a length is cut short, get_string on a valid array in the read mode leaves
-- the array as it was, and says how many bytes the text takes with its length.
pub get_string_short :
    (ba : ByteArray) (len : ℕ) (rest : List ℕ)
    → IsValid ba
    → is_null ba.buffer ≡ false
    → ba.reading ≡ true
    → decode 5 0 0 (unread ba) ≡ some (len, rest)
    → length rest < len
    → get_string ba
      ≡ (record { buff = none; buflen = len + (length (unread ba) - length rest) }, ba)
unfolding get_string
get_string_short ba len rest v p q e short =
    let (c, fits, got, left) = get_u30-decode ba v in
    let found = got ∙ ap (λ d. (Option.map (λ x. x.0) d, advance ba c)) e in
    let ba' = advance ba c in
    let v' : IsValid ba' = omega arith in
    let remains = left len rest e in
    let small = (decode_bounds 5 0 0 (unread ba) len rest (omega arith) e).0 in
    let there : read_available ba' ≡ length rest =
      read_available-unread ba' v' p q ∙ ap length remains in
    let cut : ltb (read_available ba') len ≡ true = ground arith in
    let count : add_size len (sub_size ba'.offset ba.offset)
        ≡ len + (length (unread ba) - length rest) =
      omega (arith, length-unread ba v, length-unread ba' v', ap (length {0}) remains) in
    rw (found, cut) (ap (λ n. (record { buff = none; buflen = n }, ba)) count)
