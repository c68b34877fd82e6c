-- ===== src/WebSocket/Mask.antt =====
-- src/httpd_websocket.c: websocket_mask_unmask.
use Prim.Native.Nat.{differ}
use luafan.Common.{
  ℕ, zero, suc, ◌+◌, ◌/◌, ◌%◌, ◌^◌, ◌≤◌, ◌<◌, ◌≡◌, refl, ap, ap₂, ◌∙◌, bit_xor, List, [], ◌∷◌,
  length, get_or, All, arith,
}
use luafan.Common.Bits.{bit_xor_low}
use luafan.Common.Words.{IsByte, le_bytes, le_bytes-IsByte}
use luafan.WebSocket.Frame.{mask_from, mask_unmask}
use luafan.WebSocket.Wire.{masked_octets}
use native.Mathlib.Nat.{pow-suc}

differ_back : (x y : ℕ) → x < 2 → y < 2 → (differ x y < 2) × (differ (differ x y) y ≡ x)
differ_back zero zero h g = (omega arith, refl)
differ_back zero (suc zero) h g = (omega arith, refl)
differ_back (suc zero) zero h g = (omega arith, refl)
differ_back (suc zero) (suc zero) h g = (omega arith, refl)
differ_back x (suc (suc y)) h g = absurd (omega arith)
differ_back (suc (suc x)) y h g = absurd (omega arith)

xor_back : (k x y : ℕ) → x < 2 ^ k → y < 2 ^ k → bit_xor (bit_xor x y) y ≡ x
xor_back zero zero zero h g = refl
xor_back zero (suc x) y h g = absurd (omega arith)
xor_back zero zero (suc y) h g = absurd (omega arith)
xor_back (suc k) x y h g =
    let (bit, flip) = differ_back (x % 2) (y % 2) (omega arith) (omega arith) in
    let low : bit_xor x y % 2 ≡ differ (x % 2) (y % 2) = omega (arith, bit_xor_low x y, bit) in
    let high : bit_xor x y / 2 ≡ bit_xor (x / 2) (y / 2) = omega (arith, bit_xor_low x y, bit) in
    let rest =
      xor_back k (x / 2) (y / 2) (omega (arith, pow-suc 2 k)) (omega (arith, pow-suc 2 k)) in
    bit_xor_low (bit_xor x y) y ∙ rw (low, high, flip, rest) (omega arith)

get_or-IsByte : (bs : List ℕ) (i : ℕ) → All IsByte bs → get_or bs i 0 < 256
get_or-IsByte [] i h = omega arith
get_or-IsByte (b ∷ bs) zero h = h.0
get_or-IsByte (b ∷ bs) (suc i) h = get_or-IsByte bs i h.1

pub length-mask_from :
    (mask : List ℕ) (i n : ℕ) (bytes : List ℕ) → length (mask_from mask i n bytes) ≡ length bytes
unfolding mask_from
length-mask_from mask i zero bytes = refl
length-mask_from mask i (suc n) [] = refl
length-mask_from mask i (suc n) (d ∷ bytes) = omega (arith, length-mask_from mask (i + 1) n bytes)

mask_from_twice :
    (mask : List ℕ) (i n : ℕ) (bytes : List ℕ)
    → All IsByte mask
    → All IsByte bytes
    → mask_from mask i n (mask_from mask i n bytes) ≡ bytes
unfolding mask_from
mask_from_twice mask i zero bytes hm hd = refl
mask_from_twice mask i (suc n) [] hm hd = refl
mask_from_twice mask i (suc n) (d ∷ bytes) hm hd =
    ap₂ ◌∷◌ (xor_back 8 d (get_or mask (i % 4) 0) hd.0 (get_or-IsByte mask (i % 4) hm))
      (mask_from_twice mask (i + 1) n bytes hm hd.1)

-- Masking bytes twice with one key gives them back.
pub mask_unmask_twice :
    (bytes : List ℕ) (len mask_key : ℕ)
    → All IsByte bytes
    → mask_unmask (mask_unmask bytes len mask_key) len mask_key ≡ bytes
unfolding mask_unmask
mask_unmask_twice bytes len mask_key h =
    mask_from_twice (le_bytes 4 mask_key) 0 len bytes (le_bytes-IsByte 4 mask_key) h

mask_from-masked_octets :
    (key : List ℕ) (i n : ℕ) (bytes : List ℕ)
    → length bytes ≤ n
    → mask_from key i n bytes ≡ masked_octets key i bytes
unfolding mask_from masked_octets
mask_from-masked_octets key i zero [] h = refl
mask_from-masked_octets key i zero (d ∷ bytes) h = absurd (omega arith)
mask_from-masked_octets key i (suc n) [] h = refl
mask_from-masked_octets key i (suc n) (d ∷ bytes) h =
    ap (◌∷◌ (bit_xor d (get_or key (i % 4) 0)))
      (mask_from-masked_octets key (i + 1) n bytes (omega arith))

-- Masking does to a payload what the protocol lays down.
pub mask_unmask-masked_octets :
    (bytes : List ℕ) (len mask_key : ℕ)
    → length bytes ≤ len
    → mask_unmask bytes len mask_key ≡ masked_octets (le_bytes 4 mask_key) 0 bytes
unfolding mask_unmask
mask_unmask-masked_octets bytes len mask_key h =
    mask_from-masked_octets (le_bytes 4 mask_key) 0 len bytes h

pub length-mask_unmask :
    (bytes : List ℕ) (len mask_key : ℕ) → length (mask_unmask bytes len mask_key) ≡ length bytes
unfolding mask_unmask
length-mask_unmask bytes len mask_key = length-mask_from (le_bytes 4 mask_key) 0 len bytes

mask_from_at :
    (mask : List ℕ) (i n k : ℕ) (bytes : List ℕ)
    → k < n
    → k < length bytes
    → get_or (mask_from mask i n bytes) k 0
      ≡ bit_xor (get_or bytes k 0) (get_or mask ((i + k) % 4) 0)
unfolding mask_from
mask_from_at mask i zero k bytes h g = absurd (omega arith)
mask_from_at mask i (suc n) k [] h g = absurd (omega arith)
mask_from_at mask i (suc n) zero (d ∷ bytes) h g =
    ap (λ t. bit_xor d (get_or mask (t % 4) 0)) (omega arith)
mask_from_at mask i (suc n) (suc k) (d ∷ bytes) h g =
    mask_from_at mask (i + 1) n k bytes (omega arith) (omega arith)
    ∙ ap (λ t. bit_xor (get_or bytes k 0) (get_or mask (t % 4) 0)) (omega arith)

-- Within the length, masking combines each byte by exclusive or with the byte of the key at its
-- index modulo four.
pub mask_unmask_at :
    (bytes : List ℕ) (len mask_key k : ℕ)
    → k < len
    → k < length bytes
    → get_or (mask_unmask bytes len mask_key) k 0
      ≡ bit_xor (get_or bytes k 0) (get_or (le_bytes 4 mask_key) (k % 4) 0)
unfolding mask_unmask
mask_unmask_at bytes len mask_key k h g =
    mask_from_at (le_bytes 4 mask_key) 0 len k bytes h g
    ∙ ap (λ t. bit_xor (get_or bytes k 0) (get_or (le_bytes 4 mask_key) (t % 4) 0)) (omega arith)
