-- ===== src/ByteArray/Write.antt =====
-- src/bytearray.c: the write operations.
use luafan.Common.{
  ℕ, Bool, true, false, Option, none, some, List, [], ◌∷◌, ltb, leb, if◌then◌else◌, length, blit,
}
use luafan.Common.Words.{le_bytes}
use luafan.ByteArray.State.{Heap, ByteArray, add_size, sub_size}
use luafan.ByteArray.Grow.{ensure_capacity}

-- memcpy(buffer + i, value, size)
abbrev pub copy_in : Option (List ℕ) → ℕ → List ℕ → Option (List ℕ)
copy_in none i value = none
copy_in (some bs) i value = some (blit bs i value)

-- memcpy(ba->buffer + ba->offset, value, size); ba->offset += size;
unfoldable pub store : ByteArray → List ℕ → ByteArray
store ba value = record ba {
  buffer = copy_in ba.buffer ba.offset value;
  offset = add_size ba.offset (length value);
}

module _ (h : Heap) where
  -- the second half of `write_value_optimized`, after the capacity is ensured or refused
  abbrev pub store_if : List ℕ → Bool × ByteArray → Bool × ByteArray
  store_if value (false, ba) = (false, ba)
  store_if value (true, ba) = (true, store ba value)

  unfoldable pub write_value : ByteArray → List ℕ → Bool × ByteArray
  write_value ba value =
      if leb (length value) (sub_size ba.total ba.offset)
      then (true, store ba value)
      else store_if value (ensure_capacity h ba (length value))

  unfoldable pub write8 : ByteArray → ℕ → Bool × ByteArray
  write8 ba value =
      if ltb ba.offset ba.total then (true, store ba (value ∷ [])) else write_value ba (value ∷ [])

  unfoldable pub write16 : ByteArray → ℕ → Bool × ByteArray
  write16 ba value = write_value ba (le_bytes 2 value)

  unfoldable pub write32 : ByteArray → ℕ → Bool × ByteArray
  write32 ba value = write_value ba (le_bytes 4 value)

  unfoldable pub write64 : ByteArray → ℕ → Bool × ByteArray
  write64 ba value = write_value ba (le_bytes 8 value)

  unfoldable pub write64d : ByteArray → ℕ → Bool × ByteArray
  write64d ba pattern_bits = write_value ba (le_bytes 8 pattern_bits)

  unfoldable pub writebuffer : ByteArray → List ℕ → Bool × ByteArray
  writebuffer ba buff = write_value ba buff
