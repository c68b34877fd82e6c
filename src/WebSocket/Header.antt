-- ===== src/WebSocket/Header.antt =====
-- src/httpd_websocket.c: what the readers of a frame's header find in a prefix of its bytes.
use luafan.Common.{
  ℕ, ◌+◌, ◌*◌, ◌^◌, ◌≤◌, ◌<◌, ◌≡◌, ◌∙◌, refl, ap, bit_and, Bool, true, false, none, some, List, ◌∷◌,
  ◌++◌, ltb, leb, ◌==◌, if◌then◌else◌, length, take, slice, get_or-take, slice-take,
  take-length_append, append_assoc, inl, inr, Bool-cases, arith,
}
use luafan.Common.Bits.{bit_and_top, bit_and_mask, bit_and_flags}
use luafan.Common.Words.{be_bytes, be_value, length-be_bytes, be_value-be_bytes}
use luafan.WebSocket.Frame.{Frame, has, read_flags, read_length}
use luafan.WebSocket.Wire.{
  bit_of, first_byte, length_code, extension, key_bytes, body, wire, IsFrame,
}

bit_of-le : (b : Bool) → bit_of b ≤ 1
bit_of-le true = omega arith
bit_of-le false = omega arith

first_byte-lt : (f : Frame) → f.opcode < 16 → first_byte f < 256
first_byte-lt f h =
    omega (arith, bit_of-le f.fin, bit_of-le f.rsv1, bit_of-le f.rsv2, bit_of-le f.rsv3)

-- A flag that is stored as a bit is found again.
has_bit : (w : Bool) (b k : ℕ) → 0 < k → bit_and b k ≡ bit_of w * k → has b k ≡ w
has_bit true b k h e = ground arith
has_bit false b k h e = ground arith

flags_found :
    (f : Frame)
    → f.opcode < 16
    → (has (first_byte f) 0x80 ≡ f.fin)
      × (has (first_byte f) 0x40 ≡ f.rsv1)
      × (has (first_byte f) 0x20 ≡ f.rsv2)
      × (has (first_byte f) 0x10 ≡ f.rsv3)
      × (bit_and (first_byte f) 0x0f ≡ f.opcode)
flags_found f h =
    let a = bit_of-le f.fin in
    let b = bit_of-le f.rsv1 in
    let c = bit_of-le f.rsv2 in
    let d = bit_of-le f.rsv3 in
    let small = first_byte-lt f h in
    let (m64, m32, m16) = bit_and_flags (first_byte f) small in
    (
      has_bit f.fin (first_byte f) 128 (omega arith)
          (omega (arith, bit_and_top (first_byte f) small)),
      has_bit f.rsv1 (first_byte f) 64 (omega arith) (omega arith),
      has_bit f.rsv2 (first_byte f) 32 (omega arith) (omega arith),
      has_bit f.rsv3 (first_byte f) 16 (omega arith) (omega arith),
      omega (arith, bit_and_mask 4 (first_byte f)),
    )

length_code-lt : (n : ℕ) → length_code n < 128
length_code-lt n = ground arith

second_found :
    (w : Bool) (n : ℕ)
    → (has (bit_of w * 128 + length_code n) 0x80 ≡ w)
      × (bit_and (bit_of w * 128 + length_code n) 0x7f ≡ length_code n)
second_found w n =
    let b = bit_of w * 128 + length_code n in
    let one = bit_of-le w in
    let code = length_code-lt n in
    (has_bit w b 128 (omega arith) (omega (arith, bit_and_top b)), omega (arith, bit_and_mask 7 b))

-- A block behind the first two bytes.
slice_front :
    (x y k : ℕ) (bs cs ds : List ℕ) → length bs ≡ k → slice (x ∷ y ∷ ((bs ++ cs) ++ ds)) 2 k ≡ bs
slice_front x y k bs cs ds e =
    rw⁻¹ e (rw (append_assoc bs cs ds) (take-length_append bs (cs ++ ds)))

-- A length of `k` bytes behind the first two.
be_value_front :
    (p x y k n : ℕ) (cs ds : List ℕ)
    → 2 + k ≤ p
    → n < 256 ^ k
    → be_value (slice (take p (x ∷ y ∷ ((be_bytes k n ++ cs) ++ ds))) 2 k) ≡ n
be_value_front p x y k n cs ds room h =
    let front = slice_front x y k (be_bytes k n) cs ds (length-be_bytes k n) in
    ap be_value (slice-take p 2 k _ room ∙ front) ∙ be_value-be_bytes k n h

module _ (p x b n : ℕ) where
  direct_length :
      (tail : List ℕ)
      → 2 ≤ p
      → bit_and b 0x7f ≡ n
      → n < 126
      → read_length (take p (x ∷ b ∷ tail)) p ≡ some (n, 2)
  unfolding read_length
  direct_length tail two code h =
      let second = get_or-take p 1 (x ∷ b ∷ tail) 0 (omega arith) in
      let not126 : (n == 126) ≡ false = ground arith in
      let not127 : (n == 127) ≡ false = ground arith in rw (second, code, not126, not127) refl

  length_of_2 :
      (cs ds : List ℕ)
      → 2 ≤ p
      → bit_and b 0x7f ≡ 126
      → n < 256 ^ 2
      → read_length (take p (x ∷ b ∷ ((be_bytes 2 n ++ cs) ++ ds))) p
        ≡ (if ltb p 4 then none else some (n, 4))
  unfolding read_length
  length_of_2 cs ds two code h =
      let second = get_or-take p 1 (x ∷ b ∷ ((be_bytes 2 n ++ cs) ++ ds)) 0 (omega arith) in
      rw (second, code)
        elim (Bool-cases (ltb p 4)) [
          | inl short ↦ rw short refl
          | inr room ↦ rw (room, be_value_front p x b 2 n cs ds (ground arith) h) refl
        ]

  length_of_8 :
      (cs ds : List ℕ)
      → 2 ≤ p
      → bit_and b 0x7f ≡ 127
      → n < 256 ^ 8
      → read_length (take p (x ∷ b ∷ ((be_bytes 8 n ++ cs) ++ ds))) p
        ≡ (if ltb p 10 then none else some (n, 10))
  unfolding read_length
  length_of_8 cs ds two code h =
      let second = get_or-take p 1 (x ∷ b ∷ ((be_bytes 8 n ++ cs) ++ ds)) 0 (omega arith) in
      rw (second, code)
        elim (Bool-cases (ltb p 10)) [
          | inl short ↦ rw short refl
          | inr room ↦ rw (room, be_value_front p x b 8 n cs ds (ground arith) h) refl
        ]

module _ (f : Frame) (ok : IsFrame f) (rest : List ℕ) (p : ℕ) (two : 2 ≤ p) where
  -- The flags in a prefix of two bytes or more.
  pub read_flags-wire :
      (frame : Frame)
      → read_flags frame (take p (wire f ++ rest)) ≡ record frame {
        fin = f.fin;
        rsv1 = f.rsv1;
        rsv2 = f.rsv2;
        rsv3 = f.rsv3;
        opcode = f.opcode;
        masked = f.masked;
      }
  unfolding read_flags
  read_flags-wire frame =
      let (a, b, c, d, e) = flags_found f ok.opcode_small in
      let m = second_found f.masked f.payload_len in
      rw (
        get_or-take p 0 (wire f ++ rest) 0 (omega arith),
        get_or-take p 1 (wire f ++ rest) 0 (omega arith),
        a,
        b,
        c,
        d,
        e,
        m.0,
      )

  -- The length in such a prefix, or that the prefix is too short for it.
  pub read_length-wire : read_length (take p (wire f ++ rest)) p ≡ (
      if ltb p (2 + length (extension f.payload_len))
      then none
      else some (f.payload_len, 2 + length (extension f.payload_len)))
  unfolding read_length
  read_length-wire =
      let n = f.payload_len in
      let cs = key_bytes f ++ body f in
      let code = (second_found f.masked n).1 in
      elim (Bool-cases (ltb n 126)) [
        | inl small ↦
            let wide : ltb p 2 ≡ false = ground arith in
            rw (small, wide)
              (direct_length p (first_byte f) _ n (cs ++ rest) two (rw small at code)
                (ground arith))
        | inr large ↦ elim (Bool-cases (leb n 65535)) [
          | inl short ↦
              rw (large, short, length-be_bytes 2 n)
                (length_of_2 p (first_byte f) _ n cs rest two (rw (large, short) at code)
                  (ground arith))
          | inr long ↦
              rw (large, long, length-be_bytes 8 n)
                (length_of_8 p (first_byte f) _ n cs rest two (rw (large, long) at code)
                  (omega (arith, ok.len_small)))
        ]
      ]
