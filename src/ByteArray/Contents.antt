-- ===== src/ByteArray/Contents.antt =====
-- src/bytearray.c: what the operations do to the bytes. In the write mode a byte array holds the
-- bytes before its cursor, in the read mode those from its cursor up to `total`.
use luafan.Common.{
  ℕ, ◌+◌, ◌-◌, ◌%◌, ◌^◌, ◌≤◌, ◌<◌, ◌≡◌, refl, sym, ap, ◌∙◌, inl, inr, Bool, true, false, Option,
  none, some, List, [], ◌∷◌, ◌++◌, leb, ltb, length, take, drop, slice, blit, Bool-cases, not, ◌&&◌,
  ◌||◌, length-take, length-drop, length-blit, take-blit, arith,
}
use luafan.Common.Words.{size_mod}
use luafan.ByteArray.State.{Heap, ByteArray, sub_size, bytes_of, is_null}
use luafan.ByteArray.Grow.{ensure_capacity, grown_size}
use luafan.ByteArray.Capacity.{grown_size_range}
use luafan.ByteArray.Write.{copy_in, store_if, store, write_value, write8}
use luafan.ByteArray.Inv.{IsValid, Ensured, room, refused, moved, ensured}

abbrev pub written : ByteArray → List ℕ
written ba = take ba.offset (bytes_of ba.buffer)

abbrev pub unread : ByteArray → List ℕ
unread ba = slice (bytes_of ba.buffer) ba.offset (ba.total - ba.offset)

pub length-written : (ba : ByteArray) → IsValid ba → length (written ba) ≡ ba.offset
length-written ba v = omega (arith, length-take ba.offset (bytes_of ba.buffer))

pub length-unread : (ba : ByteArray) → IsValid ba → length (unread ba) ≡ ba.total - ba.offset
length-unread ba v = omega (
  arith,
  length-take (ba.total - ba.offset) (drop ba.offset (bytes_of ba.buffer)),
  length-drop ba.offset (bytes_of ba.buffer),
)

bytes_of-copy_in :
    (b : Option (List ℕ)) (i : ℕ) (value : List ℕ)
    → bytes_of (copy_in b i value) ≡ blit (bytes_of b) i value
bytes_of-copy_in none i value = refl
bytes_of-copy_in (some bs) i value = refl

is_null-copy_in :
    (b : Option (List ℕ)) (i : ℕ) (value : List ℕ)
    → is_null b ≡ false
    → is_null (copy_in b i value) ≡ false
is_null-copy_in none i value h = h
is_null-copy_in (some bs) i value h = refl

-- A copy to the cursor, where there is room for it.
module _ (ba : ByteArray) (value : List ℕ) (v : IsValid ba)
    (fits : ba.offset + length value ≤ ba.total) where
  store-IsValid : IsValid (store ba value)
  unfolding store
  store-IsValid = omega (
    arith,
    ap length (bytes_of-copy_in ba.buffer ba.offset value),
    length-blit (bytes_of ba.buffer) ba.offset value,
  )

  written-store : written (store ba value) ≡ written ba ++ value
  unfolding store
  written-store =
      let sum : (ba.offset + length value) % size_mod ≡ ba.offset + length value = omega arith in
      rw (sum, bytes_of-copy_in ba.buffer ba.offset value)
        (take-blit (bytes_of ba.buffer) ba.offset value (omega arith))

-- Whether a write of `n` bytes is accepted: there is room, or the array is its own and the heap
-- grants a larger block.
abbrev pub has_room : Heap → ByteArray → ℕ → Bool
has_room h ba n =
    leb (ba.offset + n) ba.total || not ba.wrapbuffer && h.grants (grown_size (ba.offset + n))

-- What a write of `value` does: it is accepted exactly if there is room, and then appends its bytes
-- to those written; if not, it changes nothing. Invariant, mode and mark are kept.
pub record Writes (h : Heap) (ba : ByteArray) (value : List ℕ) (r : Bool × ByteArray) : Type 0 where
  pub done : r.0 ≡ has_room h ba (length value)
  pub valid : IsValid r.1
  pub bytes : r.0 ≡ true → written r.1 ≡ written ba ++ value
  pub unchanged : r.0 ≡ false → r.1 ≡ ba
  pub reading : r.1.reading ≡ ba.reading
  pub wrapbuffer : r.1.wrapbuffer ≡ ba.wrapbuffer
  pub mark : r.1.mark ≡ ba.mark
  pub null : is_null ba.buffer ≡ false → is_null r.1.buffer ≡ false

-- the array after `ensure_capacity` has moved the bytes to a new block
abbrev relocated : ByteArray → List ℕ → ℕ → ByteArray
relocated ba bs n = record ba { buffer = some bs; buflen = n; total = n }

module _ (h : Heap) (ba : ByteArray) (value : List ℕ) (v : IsValid ba)
    (fits : ba.offset + length value ≤ 2 ^ 62) where
  write_room : ba.offset + length value ≤ ba.total → write_value h ba value ≡ (true, store ba value)
  unfolding write_value
  write_room p =
      let test : leb (length value) (sub_size ba.total ba.offset) ≡ true = ground arith in rw test

  write_no_room :
      ba.total < ba.offset + length value
      → write_value h ba value ≡ store_if h value (ensure_capacity h ba (length value))
  unfolding write_value
  write_no_room p =
      let test : leb (length value) (sub_size ba.total ba.offset) ≡ false = ground arith in rw test

  write_by_cases : Ensured h ba (length value) → Writes h ba value (write_value h ba value)
  write_by_cases (room p e) = rw (write_room p) (record {
    done = ground arith;
    valid = store-IsValid ba value v p;
    bytes = λ _. written-store ba value v p;
    unchanged = λ q. cc;
    reading = unfold store in refl;
    wrapbuffer = unfold store in refl;
    mark = unfold store in refl;
    null = unfold store in is_null-copy_in ba.buffer ba.offset value;
  })
  write_by_cases (refused p w e) =
      rw (write_no_room p, e)
        (record {
          done = ground arith;
          valid = v;
          bytes = λ q. cc;
          unchanged = λ _. refl;
          reading = refl;
          wrapbuffer = refl;
          mark = refl;
          null = λ q. q;
        })
  write_by_cases (moved bs p w g l t e) =
      let range = grown_size_range (ba.offset + length value) fits in
      let ba' = relocated ba bs (grown_size (ba.offset + length value)) in
      let v' : IsValid ba' = omega (arith, l) in
      rw (write_no_room p, e)
        (record {
          done = ground arith;
          valid = store-IsValid ba' value v' (omega arith);
          bytes = λ _. written-store ba' value v' (omega arith) ∙ ap (λ xs. xs ++ value) t;
          unchanged = λ q. cc;
          reading = unfold store in refl;
          wrapbuffer = unfold store in refl;
          mark = unfold store in refl;
          null = λ _. unfold store in refl;
        })

-- A write of at most 2 ^ 62 bytes in all is accepted exactly if there is room or the array is its
-- own and the heap grants a larger block; it then appends its bytes to those written; if not, it
-- changes nothing; invariant, mode and mark are kept.
pub write_value-Writes :
    (h : Heap) (ba : ByteArray) (value : List ℕ)
    → IsValid ba
    → ba.offset + length value ≤ 2 ^ 62
    → Writes h ba value (write_value h ba value)
write_value-Writes h ba value v fits =
    write_by_cases h ba value v fits (ensured h ba (length value) v fits)

-- On a valid array the fast path of write8 does what the general write does on one byte.
pub write8-eq-write_value :
    (h : Heap) (ba : ByteArray) (b : ℕ) → IsValid ba → write8 h ba b ≡ write_value h ba (b ∷ [])
unfolding write8
write8-eq-write_value h ba b v = elim (Bool-cases (ltb ba.offset ba.total)) [
  | inl p ↦
      let test : leb 1 (sub_size ba.total ba.offset) ≡ true = ground arith in
      rw p (sym (unfold write_value in rw test))
  | inr p ↦ rw p
]
