-- ===== src/ByteArray/Inv.antt =====
-- src/bytearray.c: the representation invariant of BYTEARRAY.
use luafan.Common.{
  ℕ, ◌+◌, ◌-◌, ◌%◌, ◌^◌, ◌≤◌, ◌<◌, ◌≡◌, inl, inr, not, ◌&&◌, true, false, some, List, ◌++◌, leb,
  length, take, tabulate, Bool-cases, length-append, length-take, length-tabulate, take-append,
  take-take, arith, ◌∙◌,
}
use luafan.Common.Words.{size_mod}
use luafan.ByteArray.State.{Heap, ByteArray, sub_size, bytes_of}
use luafan.ByteArray.Grow.{ensure_capacity, realloc, grown_size}
use luafan.ByteArray.Capacity.{grown_size_range}

-- `buffer` is a block of at least `buflen` bytes, and the cursors stand in order inside it. A block of 2 ^ 63
-- bytes does not exist, so sums of sizes do not wrap.
pub record IsValid (ba : ByteArray) : Type 0 where
  pub block : ba.buflen ≤ length (bytes_of ba.buffer)
  pub total_in : ba.total ≤ ba.buflen
  pub offset_in : ba.offset ≤ ba.total
  pub small : ba.buflen < 2 ^ 63

-- What `reset` needs on top: the mark is a position that a reader has reached.
pub record IsMarked (ba : ByteArray) : Type 0 where
  pub mark_in : ba.mark ≤ ba.total
  pub fresh : ba.reading ≡ false → ba.mark ≡ 0

-- the block that a granted `realloc` returns
module _ (h : Heap) (old : List ℕ) (n : ℕ) where
  abbrev resized : List ℕ
  resized =
      take n old
      ++ tabulate (λ i. h.garbage i % 256) (length (take n old)) (n - length (take n old))

  length-resized : length resized ≡ n
  length-resized = omega (
    arith,
    length-append (take n old)
        (tabulate (λ i. h.garbage i % 256) (length (take n old)) (n - length (take n old))),
    length-take n old,
    length-tabulate (λ i. h.garbage i % 256) (length (take n old)) (n - length (take n old)),
  )

  take-resized : (i : ℕ) → i ≤ length old → i ≤ n → take i resized ≡ take i old
  take-resized i p q =
      take-append i (take n old) _ (omega (arith, length-take n old)) ∙ take-take i n old q

-- What `ensure_capacity` can do: nothing, because there is room; fail; or move to a new block.
pub data Ensured (h : Heap) (ba : ByteArray) (n : ℕ) : Type 0 where
  room : ba.offset + n ≤ ba.total → ensure_capacity h ba n ≡ (true, ba) → Ensured h ba n
  refused :
      ba.total < ba.offset + n
      → (not ba.wrapbuffer && h.grants (grown_size (ba.offset + n))) ≡ false
      → ensure_capacity h ba n ≡ (false, ba)
      → Ensured h ba n
  moved :
      (bs : List ℕ)
      → ba.total < ba.offset + n
      → ba.wrapbuffer ≡ false
      → h.grants (grown_size (ba.offset + n)) ≡ true
      → length bs ≡ grown_size (ba.offset + n)
      → take ba.offset bs ≡ take ba.offset (bytes_of ba.buffer)
      → ensure_capacity h ba n ≡ (
        true,
        record ba {
          buffer = some bs;
          buflen = grown_size (ba.offset + n);
          total = grown_size (ba.offset + n);
        },
      )
      → Ensured h ba n

pub ensured :
    (h : Heap) (ba : ByteArray) (n : ℕ) → IsValid ba → ba.offset + n ≤ 2 ^ 62 → Ensured h ba n
unfolding ensure_capacity realloc
ensured h ba n v fits =
    let sum : (ba.offset + n) % size_mod ≡ ba.offset + n = omega arith in
    elim (Bool-cases (leb n (sub_size ba.total ba.offset))) [
      | inl p ↦ Ensured.room (ground arith) (rw p)
      | inr p ↦ elim (Bool-cases ba.wrapbuffer) [
        | inl w ↦ Ensured.refused (ground arith) (rw w) (rw (p, w))
        | inr w ↦ elim (Bool-cases (h.grants (grown_size (ba.offset + n)))) [
          | inl g ↦
              Ensured.moved (resized h (bytes_of ba.buffer) (grown_size (ba.offset + n)))
                (ground arith) w g
                (length-resized h (bytes_of ba.buffer) (grown_size (ba.offset + n)))
                (take-resized h (bytes_of ba.buffer) (grown_size (ba.offset + n)) ba.offset
                  (omega arith) (omega (arith, grown_size_range (ba.offset + n) fits)))
                (rw (p, w, sum, g))
          | inr g ↦ Ensured.refused (ground arith) (rw (w, g)) (rw (p, w, sum, g))
        ]
      ]
    ]

-- The invariant survives an attempt to make room, whether or not it succeeds.
pub ensure_capacity-IsValid :
    (h : Heap) (ba : ByteArray) (n : ℕ)
    → IsValid ba
    → ba.offset + n ≤ 2 ^ 62
    → IsValid (ensure_capacity h ba n).1
ensure_capacity-IsValid h ba n v fits = go (ensured h ba n v fits)
  where
    go : Ensured h ba n → IsValid (ensure_capacity h ba n).1
    go (room _ e) = rw e v
    go (refused _ _ e) = rw e v
    go (moved bs p w g l t e) = rw e (omega (arith, l, grown_size_range (ba.offset + n) fits))
