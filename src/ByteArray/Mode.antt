-- ===== src/ByteArray/Mode.antt =====
-- src/bytearray.c: allocation, the two modes, and the mark.
use luafan.Common.{
  ℕ, Bool, true, false, not, ◌||◌, Option, none, some, List, ltb, ◌==◌, if◌then◌else◌, length, blit,
  slice,
}
use luafan.ByteArray.State.{Heap, ByteArray, sub_size, is_null}
use luafan.ByteArray.Grow.{min_capacity, malloc}

-- the record that `bytearray_alloc` fills once `malloc` answers; `mark` and the rest are reset
abbrev allocated : ByteArray → ℕ → Option (List ℕ) → Bool × ByteArray
allocated ba n none = (false, record ba { buffer = none })
allocated ba n (some bs) = (
  true,
  record {
    offset = 0;
    total = n;
    mark = 0;
    buffer = some bs;
    buflen = n;
    reading = false;
    wrapbuffer = false;
  },
)

-- `ba` is the record before the call, which may be uninitialised memory.
unfoldable pub alloc : Heap → ByteArray → ℕ → Bool × ByteArray
unfolding malloc
alloc h ba length =
    let n = if length == 0 then min_capacity else length in allocated ba n (malloc h n)

unfoldable pub dealloc : ByteArray → Bool × ByteArray
dealloc ba = (
  true,
  record ba {
    buffer = if not ba.wrapbuffer then none else ba.buffer;
    offset = 0;
    total = 0;
    buflen = 0;
  },
)

-- `length` is what the caller says of `buff`.
unfoldable pub wrap_buffer : ByteArray → List ℕ → ℕ → Bool × ByteArray
wrap_buffer ba buff length = (
  true,
  record ba {
    buffer = some buff;
    total = length;
    offset = 0;
    buflen = length;
    reading = true;
    wrapbuffer = true;
  },
)

unfoldable pub read_ready : ByteArray → Bool × ByteArray
read_ready ba =
    if is_null ba.buffer || ba.reading
    then (false, ba)
    else (true, record ba { total = ba.offset; offset = 0; reading = true })

unfoldable pub read_available : ByteArray → ℕ
read_available ba = if is_null ba.buffer || not ba.reading then 0 else sub_size ba.total ba.offset

unfoldable pub set_mark : ByteArray → Bool × ByteArray
set_mark ba =
    if is_null ba.buffer || not ba.reading
    then (false, ba)
    else (true, record ba { mark = ba.offset })

unfoldable pub reset : ByteArray → Bool × ByteArray
reset ba =
    if is_null ba.buffer || not ba.reading
    then (false, ba)
    else (true, record ba { offset = ba.mark })

unfoldable pub empty : ByteArray → Bool × ByteArray
empty ba = (true, record ba { offset = 0; total = 0 })

-- memmove(buf, buf + offset, n)
abbrev pub move_down : Option (List ℕ) → ℕ → ℕ → Option (List ℕ)
move_down none i n = none
move_down (some bs) i n = some (blit bs 0 (slice bs i n))

unfoldable pub write_ready : ByteArray → Bool × ByteArray
write_ready ba =
    if not ba.reading || is_null ba.buffer
    then (false, ba)
    else let unreadleft = sub_size ba.total ba.offset in
      let moved = if ltb 0 ba.offset then move_down ba.buffer ba.offset unreadleft else ba.buffer in
      let kept = if ltb 0 ba.offset then unreadleft else ba.total in
      (
        true,
        record ba { buffer = moved; offset = kept; mark = 0; total = ba.buflen; reading = false },
      )
