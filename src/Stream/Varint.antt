-- ===== src/Stream/Varint.antt =====
-- The variable-length format of `ffi_stream_add_u30` and `ffi_stream_get_u30`, on lists of bytes:
-- groups of seven bits, lowest first, with the top bit set on all but the last.
use luafan.Common.{
  ℕ, zero, suc, ◌+◌, ◌*◌, ◌/◌, ◌%◌, ◌^◌, ◌≤◌, ◌<◌, ◌≡◌, ◌∙◌, inl, inr, Bool-cases, refl, ap,
  bit_and, true, false, ◌||◌, Option, none, some, List, [], ◌∷◌, ◌++◌, ◌==◌, ltb, if◌then◌else◌,
  length, arith,
}
use luafan.Common.Bits.{bit_or_disjoint, bit_and_mask, bit_and_top, bit_or_fields, bit_or-lt}
use luafan.Stream.Add.{group_byte}
use luafan.Stream.Get.{add_group}
use native.Mathlib.Nat.{pow-suc}
use native.Mathlib.Numerals.{towards_suc}

-- The bytes of `u`, in at most `k` groups.
unfoldable pub encode : ℕ → ℕ → List ℕ
encode zero u = []
encode (suc k) u =
    let rest = encode k (u / 128) in if u / 128 == 0 then u ∷ [] else (u % 128 + 128) ∷ rest

-- The value at the head of a list of bytes, in at most `k` groups, and the bytes behind it.
unfoldable pub decode : ℕ → ℕ → ℕ → List ℕ → Option (ℕ × List ℕ)
decode zero value shift bs = none
decode (suc k) value shift [] = none
decode (suc k) value shift (b ∷ bs) =
    let value' = add_group value b shift in
    let more = decode k value' (shift + 7) bs in
    if bit_and b 128 == 0 || ltb 30 (shift + 7) then some (value', bs) else more

pub group_byte_lem : (u : ℕ) → group_byte u ≡ (if u / 128 == 0 then u else u % 128 + 128)
group_byte_lem u =
    ground (arith, bit_and_mask 7 u, bit_or_disjoint 0 (u % 128) 0, bit_or_fields 7 1 (u % 128))

-- A group joins the value below it as a sum.
add_group_lem :
    (value b shift : ℕ)
    → value < 2 ^ shift
    → value + b % 128 * 2 ^ shift < 2 ^ 32
    → add_group value b shift ≡ value + b % 128 * 2 ^ shift
add_group_lem value b shift h fits =
    let low : bit_and b 127 ≡ b % 128 = bit_and_mask 7 b in
    let small : b % 128 * 2 ^ shift % 2 ^ 32 ≡ b % 128 * 2 ^ shift = omega arith in
    rw (low, small) (bit_or_disjoint shift (b % 128) value h)

split_group : (u p : ℕ) → (u * p ≡ u % 128 * p + u / 128 * (128 * p)) × (u % 128 * p + p ≤ 128 * p)
split_group u p =
    let whole : u ≡ 128 * (u / 128) + u % 128 = omega arith in
    let parts : u * p ≡ (128 * (u / 128) + u % 128) * p = ap (λ (t : ℕ). t * p) whole in
    let room : suc (u % 128) * p ≤ 128 * p = grind arith in (omega arith, omega arith)

next_weight : (n : ℕ) → 2 ^ (n + 7) ≡ 128 * 2 ^ n
next_weight n = simp towards_suc (omega arith)

times_next : (j : ℕ) → 7 * (j + 1) ≡ 7 * j + 7
times_next j = omega arith

last_group : (b : ℕ) → b < 128 → (bit_and b 128 == 0) ≡ true
last_group b h = ground (arith, bit_and_top b)

inner_group : (g : ℕ) → g < 128 → (bit_and (g + 128) 128 == 0) ≡ false
inner_group g h = ground (arith, bit_and_top (g + 128))

-- What does not fit one group needs another.
pub deeper : (k u : ℕ) → u < 128 ^ suc k → 128 ≤ u → 0 < k
deeper zero u h big = absurd (omega arith)
deeper (suc k) u h big = omega arith

-- One round on an inner group, in the first four.
decode_inner :
    (k j g value : ℕ) (bs : List ℕ)
    → g < 128
    → j ≤ 3
    → value < 2 ^ (7 * j)
    → value + g * 2 ^ (7 * j) < 2 ^ 32
    → decode (suc k) value (7 * j) ((g + 128) ∷ bs)
      ≡ decode k (value + g * 2 ^ (7 * j)) (7 * (j + 1)) bs
unfolding decode
decode_inner k j g value bs hg hj hv fits =
    let low : (g + 128) % 128 ≡ g = omega arith in
    let joined = add_group_lem value (g + 128) (7 * j) hv (rw low fits) in
    let next : 7 * j + 7 ≡ 7 * (j + 1) = omega arith in
    let early : ltb 30 (7 * (j + 1)) ≡ false = ground arith in
    rw (inner_group g hg, joined, low, next, early)

-- Reading the bytes of `u` behind a value of `j` groups adds `u` at that place.
decode-encode_from :
    (k j u value : ℕ) (rest : List ℕ)
    → u < 128 ^ k
    → value < 2 ^ (7 * j)
    → value + u * 2 ^ (7 * j) < 2 ^ 32
    → j + k ≡ 5
    → 0 < k
    → decode k value (7 * j) (encode k u ++ rest) ≡ some (value + u * 2 ^ (7 * j), rest)
unfolding encode decode
decode-encode_from zero j u value rest hu hv fits hj pos = absurd (omega arith)
decode-encode_from (suc k) j u value rest hu hv fits hj pos = elim (Bool-cases (u / 128 == 0)) [
  | inl c ↦
      let small : u % 128 ≡ u = ground arith in
      let joined = add_group_lem value u (7 * j) hv (rw small fits) in
      rw (c, last_group u (ground arith), joined, small)
  | inr c ↦
      let p = 2 ^ (7 * j) in
      let (whole, room) = split_group u p in
      let next : 2 ^ (7 * (j + 1)) ≡ 128 * p = rw times_next (next_weight (7 * j)) in
      let shallow : 0 < k = deeper k u hu (ground arith) in
      let value' = value + u % 128 * p in
      rw
        (
          c,
          decode_inner k j (u % 128) value (encode k (u / 128) ++ rest) (omega arith)
              (ground (arith, pow-suc 128 k, shallow)) hv (omega arith),
        )
        (decode-encode_from k (j + 1) (u / 128) value' rest (omega (arith, pow-suc 128 k))
            (omega (arith, next)) (rw next (omega arith)) (omega arith) (omega (arith, shallow))
          ∙ rw next (ap (λ t. some (t, rest)) (omega arith)))
]

-- A uint32_t comes back, and what stands behind its bytes is left.
pub decode-encode :
    (u : ℕ) (rest : List ℕ) → u < 2 ^ 32 → decode 5 0 0 (encode 5 u ++ rest) ≡ some (u, rest)
decode-encode u rest h =
    decode-encode_from 5 0 u 0 rest (omega arith) (omega arith) (omega arith) refl (omega arith)
    ∙ ap (λ x. some (x, rest)) (omega arith)

-- A uint32_t takes one to five bytes.
pub length-encode :
    (k u : ℕ)
    → u < 128 ^ suc k
    → (1 ≤ length (encode (suc k) u)) × (length (encode (suc k) u) ≤ suc k)
unfolding encode
length-encode zero u h = ground (arith, h)
length-encode (suc k) u h = ground (arith, pow-suc 128 (suc k), length-encode k (u / 128))

-- The bytes run out only where fewer than `k` are there and each has its top bit set.
pub decode_total :
    (k value shift : ℕ) (bs : List ℕ)
    → k ≤ length bs
    → shift + 7 * k ≡ 35
    → 0 < k
    → (r : ℕ × List ℕ) × (decode k value shift bs ≡ some r)
unfolding decode
decode_total zero value shift bs enough hs pos = absurd (omega arith)
decode_total (suc k) value shift [] enough hs pos = absurd (omega arith)
decode_total (suc k) value shift (b ∷ bs) enough hs pos =
    elim (Bool-cases (bit_and b 128 == 0 || ltb 30 (shift + 7))) [
      | inl stop ↦ ((add_group value b shift, bs), rw stop)
      | inr on ↦
          let early : shift + 7 ≤ 30 = ground arith in
          let (r, e) =
            decode_total k (add_group value b shift) (shift + 7) bs (omega arith) (omega arith)
              (omega arith) in
          (r, rw on e)
    ]

-- What is decoded fits a uint32_t, and at least one byte is taken.
pub decode_bounds :
    (k value shift : ℕ) (bs : List ℕ) (u : ℕ) (rest : List ℕ)
    → value < 2 ^ 32
    → decode k value shift bs ≡ some (u, rest)
    → (u < 2 ^ 32) × (length rest < length bs)
unfolding decode
decode_bounds zero value shift bs u rest h e = cc
decode_bounds (suc k) value shift [] u rest h e = cc
decode_bounds (suc k) value shift (b ∷ bs) u rest h e =
    let value' = add_group value b shift in
    let h' : value' < 2 ^ 32 =
      bit_or-lt 32 value (bit_and b 127 * 2 ^ shift % 2 ^ 32) h (omega arith) in
    ground (arith, h', decode_bounds k value' (shift + 7) bs u rest h')
