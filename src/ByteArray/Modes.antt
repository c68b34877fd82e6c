-- ===== src/ByteArray/Modes.antt =====
-- src/bytearray.c: turning from one mode to the other, the mark and the reset.
use luafan.Common.{
  ℕ, ◌+◌, ◌-◌, ◌%◌, ◌^◌, ◌≤◌, ◌<◌, ◌≡◌, refl, ap, ◌∙◌, inl, inr, true, false, Option, none, some,
  List, [], ◌==◌, ltb, length, take, drop, slice, blit, if◌then◌else◌, Bool-cases, length-take,
  length-drop, length-blit, length-tabulate, take-blit_start, arith,
}
use luafan.ByteArray.State.{Heap, ByteArray, sub_size, bytes_of, is_null}
use luafan.ByteArray.Mode.{
  alloc, dealloc, wrap_buffer, read_ready, read_available, set_mark, reset, empty, write_ready,
  move_down,
}
use luafan.ByteArray.Grow.{min_capacity}
use luafan.ByteArray.Read.{read_value}
use luafan.ByteArray.Reads.{read_value-Reads}
use luafan.ByteArray.Inv.{IsValid, IsMarked}
use luafan.ByteArray.Contents.{written, unread, length-unread}

-- the size that `bytearray_alloc` asks for
abbrev asked : ℕ → ℕ
asked n = if n == 0 then min_capacity else n

-- A fresh array is empty, in the write mode, and has the room that was asked for, 128 bytes for 0.
pub alloc_lem :
    (h : Heap) (ba : ByteArray) (n : ℕ)
    → n < 2 ^ 32
    → (alloc h ba n).0 ≡ true
    → IsValid (alloc h ba n).1
      × IsMarked (alloc h ba n).1
      × (written (alloc h ba n).1 ≡ [])
      × ((alloc h ba n).1.reading ≡ false)
      × ((alloc h ba n).1.wrapbuffer ≡ false)
      × (n ≤ (alloc h ba n).1.total)
unfolding alloc
alloc_lem h ba n small e = elim (Bool-cases (h.grants (asked n))) [
  | inl g ↦
      let size = length-tabulate (λ i. h.garbage i % 256) 0 (asked n) in
      rw g (ground (arith, size), omega arith, refl, refl, refl, ground arith)
  | inr g ↦ absurd (no (rw g at e))
]
  where
    no : false ≡ true → ⊥
    no p = cc

-- `dealloc`, `wrap_buffer` and `empty` keep the invariant, and leave nothing unread but, for
-- `wrap_buffer`, the wrapped bytes.
pub dealloc-IsValid :
    (ba : ByteArray) → IsValid ba → IsValid (dealloc ba).1 × (unread (dealloc ba).1 ≡ [])
unfolding dealloc
dealloc-IsValid ba v = (omega arith, refl)

pub empty-IsValid :
    (ba : ByteArray) → IsValid ba → IsValid (empty ba).1 × (unread (empty ba).1 ≡ [])
unfolding empty
empty-IsValid ba v = (omega arith, refl)

pub wrap_buffer-IsValid :
    (ba : ByteArray) (buff : List ℕ) (n : ℕ)
    → n ≤ length buff
    → n < 2 ^ 32
    → IsValid (wrap_buffer ba buff n).1 × (unread (wrap_buffer ba buff n).1 ≡ take n buff)
unfolding wrap_buffer
wrap_buffer-IsValid ba buff n h small = (omega arith, ap (λ k. take k buff) (omega arith))

-- `read_ready` turns what was written into what is to be read.
pub read_ready_lem :
    (ba : ByteArray)
    → IsValid ba
    → is_null ba.buffer ≡ false
    → ba.reading ≡ false
    → ((read_ready ba).0 ≡ true)
      × IsValid (read_ready ba).1
      × ((read_ready ba).1.reading ≡ true)
      × (unread (read_ready ba).1 ≡ written ba)
unfolding read_ready
read_ready_lem ba v p q =
    rw (p, q) (refl, omega arith, refl, ap (λ k. take k (bytes_of ba.buffer)) (omega arith))

pub read_ready_keeps :
    (ba : ByteArray)
    → ((read_ready ba).1.buffer ≡ ba.buffer) × ((read_ready ba).1.wrapbuffer ≡ ba.wrapbuffer)
unfolding read_ready
read_ready_keeps ba = ground arith

-- Reading back, `available` counts the unread bytes.
pub read_available-unread :
    (ba : ByteArray)
    → IsValid ba
    → is_null ba.buffer ≡ false
    → ba.reading ≡ true
    → read_available ba ≡ length (unread ba)
unfolding read_available
read_available-unread ba v p q = rw (p, q) (omega (arith, length-unread ba v))

bytes_of-move_down :
    (b : Option (List ℕ)) (i n : ℕ)
    → bytes_of (move_down b i n) ≡ blit (bytes_of b) 0 (slice (bytes_of b) i n)
bytes_of-move_down none i n = refl
bytes_of-move_down (some bs) i n = refl

take-move_down :
    (b : Option (List ℕ)) (i n : ℕ)
    → i + n ≤ length (bytes_of b)
    → take n (bytes_of (move_down b i n)) ≡ slice (bytes_of b) i n
take-move_down b i n h =
    let bs = bytes_of b in
    let size : length (slice bs i n) ≡ n =
      omega (arith, length-take n (drop i bs), length-drop i bs) in
    rw (bytes_of-move_down b i n) (rw size at (take-blit_start bs (slice bs i n) (omega arith)))

-- write_ready on a valid array in the read mode keeps what is still unread as the bytes written, in
-- the write mode, with the invariant and a mark at 0.
pub write_ready_lem :
    (ba : ByteArray)
    → IsValid ba
    → is_null ba.buffer ≡ false
    → ba.reading ≡ true
    → ((write_ready ba).0 ≡ true)
      × IsValid (write_ready ba).1
      × IsMarked (write_ready ba).1
      × ((write_ready ba).1.reading ≡ false)
      × (written (write_ready ba).1 ≡ unread ba)
unfolding write_ready
write_ready_lem ba v p q = elim (Bool-cases (ltb 0 ba.offset)) [
  | inl c ↦
      let left : sub_size ba.total ba.offset ≡ ba.total - ba.offset = omega arith in
      rw (q, p, c, left)
        (
          refl,
          omega (
            arith,
            ap length (bytes_of-move_down ba.buffer ba.offset (ba.total - ba.offset)),
            length-blit (bytes_of ba.buffer) 0
                (slice (bytes_of ba.buffer) ba.offset (ba.total - ba.offset)),
          ),
          omega arith,
          refl,
          take-move_down ba.buffer ba.offset (ba.total - ba.offset) (omega arith),
        )
  | inr c ↦
      let start : ba.offset ≡ 0 = ground arith in
      rw (q, p, c)
        (
          refl,
          omega arith,
          omega arith,
          refl,
          rw start (ap (λ k. take k (bytes_of ba.buffer)) (omega arith)),
        )
]

-- `reset` goes back to a mark that stands at an earlier cursor of the same block.
reset_to :
    (x ba : ByteArray)
    → IsValid ba
    → is_null ba.buffer ≡ false
    → ba.reading ≡ true
    → x.buffer ≡ ba.buffer
    → x.reading ≡ ba.reading
    → x.total ≡ ba.total
    → x.buflen ≡ ba.buflen
    → x.mark ≡ ba.offset
    → ((reset x).0 ≡ true) × IsValid (reset x).1 × (unread (reset x).1 ≡ unread ba)
unfolding reset
reset_to x ba v p q eb er et el em =
    let null : is_null x.buffer ≡ false = ap is_null eb ∙ p in
    rw (null, er ∙ q) (refl, omega (arith, ap (λ b. length (bytes_of b)) eb), rw (eb, et, em) refl)

-- After a mark in the read mode and a read of any size, reset succeeds, keeps the invariant and
-- makes unread again what was unread at the mark.
pub reset-set_mark :
    (ba : ByteArray) (n : ℕ)
    → IsValid ba
    → is_null ba.buffer ≡ false
    → ba.reading ≡ true
    → let marked = (set_mark ba).1 in
      let after = (read_value marked n).1 in
      ((reset after).0 ≡ true) × IsValid (reset after).1 × (unread (reset after).1 ≡ unread ba)
unfolding set_mark
reset-set_mark ba n v p q =
    let marked = record ba { mark = ba.offset } in
    let v' : IsValid marked = omega arith in
    let r = read_value-Reads marked n v' in
    let e : set_mark ba ≡ (true, marked) = rw (p, q) in
    rw e (reset_to (read_value marked n).1 ba v p q r.block r.reading r.total r.buflen r.mark)
