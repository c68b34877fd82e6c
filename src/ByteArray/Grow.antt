-- ===== src/ByteArray/Grow.antt =====
-- src/bytearray.c: how much room is asked for, and the heap that grants it.
use luafan.Common.{
  ℕ, ◌+◌, ◌-◌, ◌*◌, ◌/◌, ◌%◌, ◌^◌, bit_or, Bool, true, false, Option, none, some, List, ◌++◌, leb,
  if◌then◌else◌, length, take, tabulate,
}
use luafan.ByteArray.State.{Heap, ByteArray, add_size, sub_size, bytes_of}

abbrev pub min_capacity : ℕ
min_capacity = 128

abbrev pub max_prealloc : ℕ
max_prealloc = 4096

abbrev pub cache_line_size : ℕ
cache_line_size = 64

-- n |= n >> s
abbrev smear : ℕ → ℕ → ℕ
smear s n = bit_or n (n / 2 ^ s)

unfoldable pub next_power_of_2 : ℕ → ℕ
next_power_of_2 n =
    if leb n min_capacity
    then min_capacity
    else smear 32 (smear 16 (smear 8 (smear 4 (smear 2 (smear 1 (n - 1)))))) + 1

-- The size that `ensure_capacity_optimized` asks for; `& ~(64 - 1)` clears the low six bits.
unfoldable pub grown_size : ℕ → ℕ
grown_size needed =
    if leb needed max_prealloc
    then next_power_of_2 needed
    else add_size (add_size needed (needed / 2 ^ 2)) (cache_line_size - 1)
      / cache_line_size
      * cache_line_size

-- a byte that no one has written yet
abbrev fresh : Heap → ℕ → ℕ
fresh h i = h.garbage i % 256

-- `malloc` and `realloc`: the old bytes are kept as far as they fit, the new ones are garbage.
unfoldable pub malloc : Heap → ℕ → Option (List ℕ)
malloc h n = if h.grants n then some (tabulate (fresh h) 0 n) else none

unfoldable pub realloc : Heap → Option (List ℕ) → ℕ → Option (List ℕ)
realloc h old n =
    let kept = take n (bytes_of old) in
    if h.grants n then some (kept ++ tabulate (fresh h) (length kept) (n - length kept)) else none

module _ (h : Heap) where
  -- the new block, or the failure, of `ensure_capacity_optimized`
  unfoldable pub install : ByteArray → ℕ → Option (List ℕ) → Bool × ByteArray
  install ba new_size none = (false, ba)
  install ba new_size (some bs) =
      (true, record ba { buffer = some bs; buflen = new_size; total = new_size })

  unfoldable pub ensure_capacity : ByteArray → ℕ → Bool × ByteArray
  unfolding install
  ensure_capacity ba required_size =
      if leb required_size (sub_size ba.total ba.offset)
      then (true, ba)
      else if ba.wrapbuffer
      then (false, ba)
      else let new_size = grown_size (add_size ba.offset required_size) in
        install ba new_size (realloc h ba.buffer new_size)
