-- ===== src/Stream/Get.antt =====
-- src/stream_ffi.c: the GET operations, and the mark. `none` is where a C function returns false.
use luafan.Common.{
  ℕ, zero, suc, ◌+◌, ◌*◌, ◌%◌, ◌^◌, bit_and, bit_or, bit_xor, Bool, ◌||◌, Option, none, some, List,
  ◌==◌, ltb, if◌then◌else◌, get_or, slice,
}
use luafan.Common.Int.{ℤ, pos, negsuc}
use luafan.ByteArray.State.{ByteArray, bytes_of, add_size, sub_size}
use luafan.ByteArray.Read.{read8, read16, read32, read64d, readbuffer}
use luafan.ByteArray.Mode.{read_available, set_mark, reset}
use mathlib.Core.Option

unfoldable pub available : ByteArray → ℕ
available ba = read_available ba

unfoldable pub get_u8 : ByteArray → Option ℕ × ByteArray
get_u8 ba = read8 ba

unfoldable pub get_u16 : ByteArray → Option ℕ × ByteArray
get_u16 ba = read16 ba

unfoldable pub get_u32 : ByteArray → Option ℕ × ByteArray
get_u32 ba = read32 ba

-- value | ((b & 127) << shift), in a uint32_t
abbrev pub add_group : ℕ → ℕ → ℕ → ℕ
add_group value b shift = bit_or value (bit_and b 127 * 2 ^ shift % 2 ^ 32)

-- one round on the byte that `bytearray_read8` gave, if it gave one
abbrev pub take_group :
    (ℕ → ByteArray → Option ℕ × ByteArray) → ℕ → ℕ → Option ℕ × ByteArray → Option ℕ × ByteArray
take_group next value shift (none, ba) = (none, ba)
take_group next value shift (some b, ba) =
    let value' = add_group value b shift in
    if bit_and b 128 == 0 || ltb 30 (shift + 7) then (some value', ba) else next value' ba

-- `while (true)` ends by `shift > 30` in the fifth round at the latest.
unfoldable pub get_u30_loop : ℕ → ℕ → ℕ → ByteArray → Option ℕ × ByteArray
get_u30_loop zero value shift ba = (none, ba)
get_u30_loop (suc rounds) value shift ba =
    take_group (λ v x. get_u30_loop rounds v (shift + 7) x) value shift (read8 ba)

unfoldable pub get_u30 : ByteArray → Option ℕ × ByteArray
get_u30 ba = get_u30_loop 5 0 0 ba

-- value[2] << 16 | value[1] << 8 | value[0]
abbrev pub three_bytes : List ℕ → ℕ
three_bytes value =
    bit_or (bit_or (get_or value 2 0 * 2 ^ 16) (get_or value 1 0 * 2 ^ 8)) (get_or value 0 0)

-- `-1 - (v ^ 0xffffff)` where the top bit is set
unfoldable pub signed_24 : List ℕ → ℤ
signed_24 value =
    if bit_and (get_or value 2 0) 0x80 == 0
    then pos (three_bytes value)
    else negsuc (bit_xor (three_bytes value) 0xffffff)

unfoldable pub get_s24 : ByteArray → Option ℤ × ByteArray
get_s24 ba = let (value, ba') = readbuffer ba 3 in (Option.map signed_24 value, ba')

unfoldable pub get_u24 : ByteArray → Option ℕ × ByteArray
get_u24 ba = let (value, ba') = readbuffer ba 3 in (Option.map three_bytes value, ba')

unfoldable pub get_d64 : ByteArray → Option ℕ × ByteArray
get_d64 ba = read64d ba

unfoldable pub stream_mark : ByteArray → Bool × ByteArray
stream_mark ba = set_mark ba

unfoldable pub stream_reset : ByteArray → Bool × ByteArray
stream_reset ba = reset ba

-- What `*buff` and `*buflen` become: the text, or `none` for NULL with a count of bytes.
pub record Text : Type 0 where
  pub buff : Option (List ℕ)
  pub buflen : ℕ

-- `get_string` once the length is read: `before` is the array at the call.
abbrev pub take_text : ByteArray → Option ℕ × ByteArray → Text × ByteArray
take_text before (none, ba) =
    let restored = record ba { offset = before.offset } in
    (record { buff = none; buflen = add_size (read_available restored) 1 }, restored)
take_text before (some len, ba) =
    let text : Text = record {
      buff = some (slice (bytes_of ba.buffer) ba.offset len);
      buflen = len;
    } in
    let needed = add_size len (sub_size ba.offset before.offset) in
    if ltb (read_available ba) len
    then (record { buff = none; buflen = needed }, record ba { offset = before.offset })
    else (text, (readbuffer ba len).1)

unfoldable pub get_string : ByteArray → Text × ByteArray
get_string ba = take_text ba (get_u30 ba)

-- the number of bytes that `get_bytes` and `test_bytes` hand out for a request of `buflen`
abbrev pub granted_bytes : ByteArray → ℕ → ℕ
granted_bytes ba buflen =
    (if ltb 0 buflen
      then if ltb (read_available ba) buflen then read_available ba else buflen
      else read_available ba)
    % 2 ^ 32

-- `*buff` is `ba->buffer + ba->offset`, NULL for a NULL block.
unfoldable pub test_bytes : ByteArray → ℕ → Text
test_bytes ba buflen =
    let len = granted_bytes ba buflen in
    record { buff = Option.map (λ bs. slice bs ba.offset len) ba.buffer; buflen = len }

unfoldable pub get_bytes : ByteArray → ℕ → Text × ByteArray
get_bytes ba buflen =
    let len = granted_bytes ba buflen in
    (
      record { buff = Option.map (λ bs. slice bs ba.offset len) ba.buffer; buflen = len },
      (readbuffer ba len).1,
    )
