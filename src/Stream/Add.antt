-- ===== src/Stream/Add.antt =====
-- src/stream_ffi.c: the stream's constructor, its ADD operations and the mode switches. The C
-- functions return nothing where a write fails; the array then stays as the write leaves it.
use luafan.Common.{
  ℕ, zero, suc, ◌/◌, ◌*◌, ◌%◌, ◌^◌, bit_and, bit_or, Bool, Option, none, some, List, [], ◌∷◌, ◌==◌,
  if◌then◌else◌, length,
}
use luafan.ByteArray.State.{Heap, ByteArray}
use luafan.ByteArray.Write.{write8, write16, write64d, writebuffer}
use luafan.ByteArray.Mode.{alloc, dealloc, read_ready, write_ready, empty}

-- `((u & ~0x7f) != 0 ? 0x80 : 0) | (u & 0x7F)`
abbrev pub group_byte : ℕ → ℕ
group_byte u = bit_or (if u / 128 * 128 == 0 then 0 else 0x80) (bit_and u 0x7f)

module _ (h : Heap) where
  -- `ba` is the uninitialised userdata. `bytearray_alloc` takes a uint32_t.
  unfoldable pub stream_new : ByteArray → Option (List ℕ) → ByteArray
  stream_new ba none = (alloc h ba 0).1
  stream_new ba (some []) = (alloc h ba 0).1
  stream_new ba (some (c ∷ cs)) =
      (read_ready (writebuffer h (alloc h ba (length (c ∷ cs) % 2 ^ 32)).1 (c ∷ cs)).1).1

  unfoldable pub add_u8 : ByteArray → ℕ → ByteArray
  add_u8 ba value = (write8 h ba value).1

  unfoldable pub add_u16 : ByteArray → ℕ → ByteArray
  add_u16 ba value = (write16 h ba value).1

  -- `do … while (u != 0)` over a uint32_t: at most five groups of seven bits.
  unfoldable pub add_u30_loop : ℕ → ByteArray → ℕ → ByteArray
  add_u30_loop zero ba u = ba
  add_u30_loop (suc rounds) ba u =
      let ba' = (write8 h ba (group_byte u)).1 in
      let more = add_u30_loop rounds ba' (u / 2 ^ 7) in if u / 2 ^ 7 == 0 then ba' else more

  unfoldable pub add_u30 : ByteArray → ℕ → ByteArray
  add_u30 ba u = add_u30_loop 5 ba u

  unfoldable pub add_u24 : ByteArray → ℕ → ByteArray
  add_u24 ba u =
      (writebuffer h ba
        (bit_and u 0xff ∷ bit_and (u / 2 ^ 8) 0xff ∷ bit_and (u / 2 ^ 16) 0xff ∷ [])).1

  unfoldable pub add_d64 : ByteArray → ℕ → ByteArray
  add_d64 ba pattern_bits = (write64d h ba pattern_bits).1

  -- the length is a uint32_t on the wire
  unfoldable pub add_string : ByteArray → List ℕ → ByteArray
  add_string ba text = (writebuffer h (add_u30 ba (length text % 2 ^ 32)) text).1

  unfoldable pub add_bytes : ByteArray → List ℕ → ByteArray
  add_bytes ba text = (writebuffer h ba text).1

unfoldable pub gc : ByteArray → ByteArray
gc ba = (dealloc ba).1

-- the block, its length, and the array turned to the read mode
unfoldable pub stream_package : ByteArray → Option (List ℕ) × ℕ × ByteArray
stream_package ba = let (r, ba') = read_ready ba in (ba'.buffer, ba'.total, ba')

unfoldable pub prepare_get : ByteArray → Bool × ByteArray
prepare_get ba = read_ready ba

unfoldable pub prepare_add : ByteArray → Bool × ByteArray
prepare_add ba = write_ready ba

unfoldable pub stream_empty : ByteArray → Bool × ByteArray
stream_empty ba = empty ba
