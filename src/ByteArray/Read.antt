-- ===== src/ByteArray/Read.antt =====
-- src/bytearray.c: the read operations.
use luafan.Common.{ℕ, Option, none, some, List, ltb, leb, if◌then◌else◌, length, get_or, slice}
use luafan.Common.Words.{le_value}
use luafan.ByteArray.State.{ByteArray, add_size, sub_size, bytes_of}
use mathlib.Core.Option

-- What a read returns: `none` where the C function returns false.
unfoldable pub read_value : ByteArray → ℕ → Option (List ℕ) × ByteArray
read_value ba size =
    if leb size (sub_size ba.total ba.offset)
    then (
      some (slice (bytes_of ba.buffer) ba.offset size),
      record ba { offset = add_size ba.offset size },
    )
    else (none, ba)

unfoldable pub read8 : ByteArray → Option ℕ × ByteArray
read8 ba =
    if ltb ba.offset ba.total
    then (
      some (get_or (bytes_of ba.buffer) ba.offset 0),
      record ba { offset = add_size ba.offset 1 },
    )
    else (none, ba)

-- the integer that a `memcpy` into `value` leaves there
abbrev pub as_word : Option (List ℕ) × ByteArray → Option ℕ × ByteArray
as_word (bs, ba) = (Option.map le_value bs, ba)

unfoldable pub read16 : ByteArray → Option ℕ × ByteArray
read16 ba = as_word (read_value ba 2)

unfoldable pub read32 : ByteArray → Option ℕ × ByteArray
read32 ba = as_word (read_value ba 4)

unfoldable pub read64 : ByteArray → Option ℕ × ByteArray
read64 ba = as_word (read_value ba 8)

unfoldable pub read64d : ByteArray → Option ℕ × ByteArray
read64d ba = as_word (read_value ba 8)

-- With `buff` NULL the C function skips the copy, and the caller ignores the bytes returned here.
-- `length` is a uint32_t there: the model also answers for values that cannot be passed.
unfoldable pub readbuffer : ByteArray → ℕ → Option (List ℕ) × ByteArray
readbuffer ba length = read_value ba length
