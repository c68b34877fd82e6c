-- ===== src/ObjectBuf/Readable.antt =====
-- src/objectbuf.c: what the reads of the decoder leave of the input.
use luafan.Common.{
  ℕ, ◌+◌, ◌-◌, ◌^◌, ◌≤◌, ◌<◌, ◌≡◌, refl, ap, ◌∙◌, true, false, Option, none, some, List, length,
  length-take, length-drop, drop, take_all, ltb, Bool-cases, inl, inr, arith,
}
use native.Mathlib.Decide.{dec_le}
use luafan.ByteArray.State.{ByteArray, is_null, bytes_of}
use luafan.ByteArray.Read.{readbuffer, read64d, read_value, as_word}
use luafan.ByteArray.Mode.{wrap_buffer, read_available}
use luafan.ByteArray.Inv.{IsValid}
use luafan.ByteArray.Contents.{unread}
use luafan.ByteArray.Reads.{read_value-Reads}
use luafan.ByteArray.Modes.{wrap_buffer-IsValid}
use luafan.Stream.Get.{get_u30, get_d64, get_string, take_text}
use luafan.Stream.Varint.{decode, decode_bounds}
use luafan.Stream.U30.{get_u30-decode, advance}
use luafan.ObjectBuf.Encode.{blank}
use luafan.ObjectBuf.Decode.{
  Failure, Got, got, fails, not_found, nan_index, endless, no_fuel, and_then, found, got_string,
}

-- A result that is neither an endless loop nor a lack of fuel, and a value with the property where there is one.
abbrev pub EndsIn : {A : Type 0} → (A → Type 0) → Got A → Type 0
EndsIn P (got a) = P a
EndsIn P (fails e) = Unit
EndsIn P (not_found i) = Unit
EndsIn P nan_index = Unit
EndsIn P endless = ⊥
EndsIn P no_fuel = ⊥

pub and_then-EndsIn :
    {A B : Type 0} (P : A → Type 0) (Q : B → Type 0) (g : Got A) (f : A → Got B)
    → EndsIn P g
    → ((a : A) → P a → EndsIn Q (f a))
    → EndsIn Q (and_then g f)
and_then-EndsIn P Q (got a) f h next = next a h
and_then-EndsIn P Q (fails e) f h next = tt
and_then-EndsIn P Q (not_found i) f h next = tt
and_then-EndsIn P Q nan_index f h next = tt
and_then-EndsIn P Q endless f h next = h
and_then-EndsIn P Q no_fuel f h next = h

-- An array in the read mode with at most `n` unread bytes.
pub record IsReadable (ba : ByteArray) (n : ℕ) : Type 0 where
  pub valid : IsValid ba
  pub has_block : is_null ba.buffer ≡ false
  pub mode : ba.reading ≡ true
  pub left : length (unread ba) ≤ n

pub weaker : (ba : ByteArray) (m n : ℕ) → m ≤ n → IsReadable ba m → IsReadable ba n
weaker ba m n le r = record {
  valid = r.valid;
  has_block = r.has_block;
  mode = r.mode;
  left = let q = r.left in omega arith;
}

pub wrapped :
    (s : List ℕ) → length s < 2 ^ 32 → IsReadable (wrap_buffer blank s (length s)).1 (length s)
unfolding wrap_buffer
wrapped s small =
    let w = wrap_buffer-IsValid blank s (length s) (omega arith) small in
    record {
      valid = w.0;
      has_block = refl;
      mode = refl;
      left = rw (w.1, take_all (length s) s (omega arith)) (omega arith);
    }

-- A uint32_t takes a byte at least.
pub found-IsReadable :
    (e : Failure) (d : ByteArray) (n : ℕ)
    → IsReadable d n
    → EndsIn (λ x. (x.0 < 2 ^ 32) × IsReadable x.1 (n - 1)) (found e (get_u30 d))
found-IsReadable e d n r = go (decode 5 0 0 (unread d)) refl
  where
    go :
        (dec : Option (ℕ × List ℕ))
        → decode 5 0 0 (unread d) ≡ dec
        → EndsIn (λ x. (x.0 < 2 ^ 32) × IsReadable x.1 (n - 1)) (found e (get_u30 d))
    go none is = let (c, fits, read, after) = get_u30-decode d r.valid in rw (read, is) tt
    go (some (u, rest)) is =
        let (c, fits, read, after) = get_u30-decode d r.valid in
        let (small, shorter) = decode_bounds 5 0 0 (unread d) u rest (omega arith) is in
        let next : IsReadable (advance d c) (n - 1) = record {
          valid = let q = r.valid in omega arith;
          has_block = r.has_block;
          mode = r.mode;
          left = rw (after u rest is) (let q = r.left in omega arith);
        } in
        rw (read, is) (small, next)

-- A read of some bytes leaves an array that can be read.
pub read_value-IsReadable :
    (d : ByteArray) (n k : ℕ) → IsReadable d n → IsReadable (read_value d k).1 n
read_value-IsReadable d n k r =
    let reads = read_value-Reads d k r.valid in
    let fewer : length (unread (read_value d k).1) ≤ length (unread d) =
      elim (dec_le k (length (unread d))) [
        | yes p ↦ rw (reads.rest p) (omega (arith, length-drop k (unread d)))
        | no p ↦ rw (reads.unchanged (omega arith)) (omega arith)
      ] in
    record {
      valid = reads.valid;
      has_block = ap is_null reads.block ∙ r.has_block;
      mode = reads.reading ∙ r.mode;
      left = let q = r.left in omega arith;
    }

pub get_d64-IsReadable :
    (e : Failure) (d : ByteArray) (n : ℕ)
    → IsReadable d n
    → EndsIn (λ x. IsReadable x.1 n) (found e (get_d64 d))
unfolding get_d64 read64d
get_d64-IsReadable e d n r = go (read_value d 8) (read_value-IsReadable d n 8 r)
  where
    go :
        (x : Option (List ℕ) × ByteArray)
        → IsReadable x.1 n
        → EndsIn (λ y. IsReadable y.1 n) (found e (as_word x))
    go (none, d1) h = tt
    go (some bs, d1) h = h

pub get_string-IsReadable :
    (d : ByteArray) (n : ℕ)
    → IsReadable d n
    → EndsIn (λ x. (length x.0 < 2 ^ 32) × IsReadable x.1 n) (got_string (get_string d))
unfolding get_string readbuffer
get_string-IsReadable d n r = go (decode 5 0 0 (unread d)) refl
  where
    go :
        (dec : Option (ℕ × List ℕ))
        → decode 5 0 0 (unread d) ≡ dec
        → EndsIn
            (λ x. (length x.0 < 2 ^ 32) × IsReadable x.1 n)
            (got_string (take_text d (get_u30 d)))
    go none is = let (c, fits, read, after) = get_u30-decode d r.valid in rw (read, is) tt
    go (some (u, rest)) is =
        let (c, fits, read, after) = get_u30-decode d r.valid in
        let (small, shorter) = decode_bounds 5 0 0 (unread d) u rest (omega arith) is in
        let next : IsReadable (advance d c) n = record {
          valid = let q = r.valid in omega arith;
          has_block = r.has_block;
          mode = r.mode;
          left = rw (after u rest is) (let q = r.left in omega arith);
        } in
        elim (Bool-cases (ltb (read_available (advance d c)) u)) [
          | inl cut ↦ rw (read, is, cut) tt
          | inr whole ↦
              rw (read, is, whole)
                (
                  omega (arith, length-take u (drop (d.offset + c) (bytes_of d.buffer))),
                  read_value-IsReadable (advance d c) n u next,
                )
        ]
