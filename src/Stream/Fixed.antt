-- ===== src/Stream/Fixed.antt =====
-- src/stream_ffi.c: integers of a fixed width.
use luafan.Common.{
  ℕ, ◌+◌, ◌-◌, ◌*◌, ◌/◌, ◌%◌, ◌^◌, ◌≤◌, ◌<◌, ◌≡◌, ◌∙◌, ap, true, false, some, List, [], ◌∷◌, ◌++◌,
  ◌==◌, length, take, drop, length-append, bit_and, bit_or, bit_xor, take-length_append,
  drop-length_append, arith,
}
use luafan.Common.Bits.{bit_or_fields, bit_xor_mask, bit_and_top}
use luafan.Common.Int.{ℤ, pos, negsuc}
use luafan.Common.Words.{le_bytes, length-le_bytes, le_value-le_bytes}
use luafan.ByteArray.State.{ByteArray}
use luafan.ByteArray.Read.{as_word, read_value}
use luafan.ByteArray.Inv.{IsValid}
use luafan.ByteArray.Contents.{unread, length-unread}
use luafan.ByteArray.Reads.{read_enough, unread-advanced}
use luafan.Stream.Get.{three_bytes, signed_24}
use luafan.Stream.U30.{advance}

-- A read of the bytes that stand first.
pub read_prefix :
    (ba : ByteArray) (bs rest : List ℕ)
    → IsValid ba
    → unread ba ≡ bs ++ rest
    → (ba.offset + length bs ≤ ba.total)
      × (read_value ba (length bs) ≡ (some bs, advance ba (length bs)))
      × (unread (advance ba (length bs)) ≡ rest)
read_prefix ba bs rest v e =
    let room : ba.offset + length bs ≤ ba.total =
      omega (arith, length-unread ba v, ap (length {0}) e, length-append bs rest) in
    let first = ap (take (length bs)) e ∙ take-length_append bs rest in
    (
      room,
      rw (read_enough ba (length bs) v room, first),
      unread-advanced ba (length bs) v room ∙ ap (drop (length bs)) e ∙ drop-length_append bs rest,
    )

-- A word of `n` bytes comes back as it was written.
pub read_word :
    (n w : ℕ) (ba : ByteArray) (rest : List ℕ)
    → IsValid ba
    → w < 256 ^ n
    → unread ba ≡ le_bytes n w ++ rest
    → (ba.offset + n ≤ ba.total)
      × (as_word (read_value ba n) ≡ (some w, advance ba n))
      × (unread (advance ba n) ≡ rest)
read_word n w ba rest v h e =
    let (room, got, left) = read_prefix ba (le_bytes n w) rest v e in
    let size = length-le_bytes n w in
    let got' : read_value ba n ≡ (some (le_bytes n w), advance ba n) = rw size at got in
    (
      omega (arith, size),
      rw got' (ap (λ x. (some x, advance ba n)) (le_value-le_bytes n w h)),
      rw size at left,
    )

-- The three bytes of `add_u24` and of `get_u24`.
abbrev pub bytes_24 : ℕ → List ℕ
bytes_24 w = (w % 256) ∷ (w / 256 % 256) ∷ (w / 65536 % 256) ∷ []

pub three_bytes-bytes_24 : (w : ℕ) → w < 2 ^ 24 → three_bytes (bytes_24 w) ≡ w
three_bytes-bytes_24 w h =
    let b1 = w / 256 % 256 in
    let b2 = w / 65536 % 256 in
    let high : bit_or (b2 * 2 ^ 16) (b1 * 2 ^ 8) ≡ (b2 * 256 + b1) * 2 ^ 8 =
      bit_or_fields 16 b2 (b1 * 2 ^ 8) (omega arith) ∙ omega arith in
    rw high (bit_or_fields 8 (b2 * 256 + b1) (w % 256) (omega arith) ∙ omega arith)

-- The bit pattern of a signed number of 24 bits, and what `get_s24` makes of its bytes: the number
-- itself, from -2 ^ 23 up to 2 ^ 23 - 1.
abbrev pub pattern_24 : ℤ → ℕ
pattern_24 (pos n) = n
pattern_24 (negsuc n) = 2 ^ 24 - 1 - n

abbrev pub IsS24 : ℤ → Type 0
IsS24 (pos n) = n < 2 ^ 23
IsS24 (negsuc n) = n < 2 ^ 23

-- From the three bytes of its two's complement, get_s24 makes the signed number itself, from -2 ^
-- 23 up to 2 ^ 23 - 1.
pub signed_24-bytes_24 : (z : ℤ) → IsS24 z → signed_24 (bytes_24 (pattern_24 z)) ≡ z
unfolding signed_24
signed_24-bytes_24 (pos n) h =
    let top : (bit_and (n / 65536 % 256) 128 == 0) ≡ true =
      ground (arith, bit_and_top (n / 65536 % 256)) in
    rw top (ap pos (three_bytes-bytes_24 n (omega arith)))
signed_24-bytes_24 (negsuc n) h =
    let w = 2 ^ 24 - 1 - n in
    let top : (bit_and (w / 65536 % 256) 128 == 0) ≡ false =
      ground (arith, bit_and_top (w / 65536 % 256)) in
    let whole : three_bytes (bytes_24 w) ≡ w = three_bytes-bytes_24 w (omega arith) in
    let back : bit_xor w (2 ^ 24 - 1) ≡ n = bit_xor_mask 24 w (omega arith) ∙ omega arith in
    rw (top, whole) (ap negsuc back)
