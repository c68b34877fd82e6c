-- ===== src/Stream/U30.antt =====
-- src/stream_ffi.c: `ffi_stream_add_u30` and `ffi_stream_get_u30` on a byte array, beside the
-- format of `Varint`.
use luafan.Common.{
  ℕ, zero, suc, ◌+◌, ◌/◌, ◌%◌, ◌^◌, ◌≤◌, ◌<◌, ◌≡◌, ◌∙◌, sym, inl, inr, Bool-cases, refl, ap, length,
  bit_and, true, ◌||◌, Option, none, some, List, [], ◌∷◌, ◌++◌, ◌==◌, ltb, arith,
}
use luafan.ByteArray.State.{Heap, ByteArray}
use luafan.ByteArray.Write.{write8}
use luafan.ByteArray.Reads.{read8-nil, read8-cons}
use luafan.ByteArray.Inv.{IsValid}
use luafan.ByteArray.Contents.{unread}
use luafan.ByteArray.Append.{IsWriting, Appended, Appended-trans, offset-Appended, write8-Appended}
use luafan.Stream.Add.{add_u30_loop, add_u30}
use luafan.Stream.Get.{get_u30_loop, get_u30, add_group}
use luafan.Stream.Varint.{
  encode, decode, decode-encode, decode_total, decode_bounds, group_byte_lem, deeper,
}
use native.Mathlib.Nat.{pow-suc, add-zero, add_assoc}
use mathlib.Core.Option

module _ (h : Heap) (grants : (n : ℕ) → h.grants n ≡ true) where
  add_u30_loop-Appended :
      (k : ℕ) (ba : ByteArray) (u : ℕ)
      → IsWriting ba
      → u < 128 ^ k
      → 0 < k
      → ba.offset + k ≤ 2 ^ 62
      → Appended ba (add_u30_loop h k ba u) (encode k u)
  unfolding add_u30_loop encode
  add_u30_loop-Appended zero ba u w small pos fits = absurd (omega arith)
  add_u30_loop-Appended (suc k) ba u w small pos fits = elim (Bool-cases (u / 128 == 0)) [
    | inl c ↦ rw (c, group_byte_lem u, c) (write8-Appended h grants ba u w (omega arith))
    | inr c ↦
        let first = write8-Appended h grants ba (u % 128 + 128) w (omega arith) in
        rw (c, group_byte_lem u, c)
          (Appended-trans first (
            add_u30_loop-Appended k (write8 h ba (u % 128 + 128)).1 (u / 128) first.writing
              (omega (arith, pow-suc 128 k)) (deeper k u small (ground arith))
              (omega (arith, offset-Appended w.valid first))))
  ]

  -- On a heap that grants what is asked, `add_u30` appends the one to five bytes of a uint32_t.
  pub add_u30-Appended :
      (ba : ByteArray) (u : ℕ)
      → IsWriting ba
      → u < 2 ^ 32
      → ba.offset + 5 ≤ 2 ^ 62
      → Appended ba (add_u30 h ba u) (encode 5 u)
  unfolding add_u30
  add_u30-Appended ba u w small fits =
      add_u30_loop-Appended 5 ba u w (omega arith) (omega arith) fits

-- the array with its cursor `c` bytes further on
abbrev pub advance : ByteArray → ℕ → ByteArray
advance ba c = record ba { offset = ba.offset + c }

advance-zero : (ba : ByteArray) → advance ba 0 ≡ ba
advance-zero ba = ap (λ o. record ba { offset = o }) (add-zero ba.offset)

pub advance-advance : (ba : ByteArray) (b c : ℕ) → advance (advance ba b) c ≡ advance ba (b + c)
advance-advance ba b c = ap (λ o. record ba { offset = o }) (add_assoc ba.offset b c)

-- What `d`, decoded from the unread bytes, says of a call that returned `r`.
abbrev pub Decoded : ByteArray → Option (ℕ × List ℕ) → Option ℕ × ByteArray → Type 0
Decoded ba d r =
    (c : ℕ) × (ba.offset + c ≤ ba.total)
    × (r ≡ (Option.map (λ x. x.0) d, advance ba c))
    × ((u : ℕ) (rest : List ℕ) → d ≡ some (u, rest) → unread (advance ba c) ≡ rest)

get_u30_loop-decode :
    (k value shift : ℕ) (ba : ByteArray) (bs : List ℕ)
    → IsValid ba
    → unread ba ≡ bs
    → Decoded ba (decode k value shift bs) (get_u30_loop k value shift ba)
unfolding get_u30_loop decode
get_u30_loop-decode zero value shift ba bs v e =
    (0, omega arith, ap (λ x. (none, x)) (sym (advance-zero ba)), λ u rest p. cc)
get_u30_loop-decode (suc k) value shift ba [] v e = (
  0,
  omega arith,
  rw (read8-nil ba v e) (ap (λ x. (none, x)) (sym (advance-zero ba))),
  λ u rest p. cc,
)
get_u30_loop-decode (suc k) value shift ba (b ∷ bs) v e =
    let (room, got, left) = read8-cons ba b bs v e in
    let value' = add_group value b shift in
    let v' : IsValid (advance ba 1) = omega arith in
    let more = get_u30_loop-decode k value' (shift + 7) (advance ba 1) bs v' left in
    elim (Bool-cases (bit_and b 128 == 0 || ltb 30 (shift + 7))) [
      | inl stop ↦ (1, room, rw (got, stop), rw stop (λ u rest p. left ∙ cc))
      | inr on ↦
          let (c, fits, same, after) = more in
          (
            1 + c,
            omega arith,
            rw (got, on)
                (same
                  ∙ ap (λ x. (Option.map (λ d. d.0) (decode k value' (shift + 7) bs), x))
                      (advance-advance ba 1 c)),
            rw on (λ u rest p. ap unread (sym (advance-advance ba 1 c)) ∙ after u rest p),
          )
    ]

-- `get_u30` returns what `decode` makes of the unread bytes, in at most five groups, and leaves the
-- cursor behind them.
pub get_u30-decode :
    (ba : ByteArray) → IsValid ba → Decoded ba (decode 5 0 0 (unread ba)) (get_u30 ba)
unfolding get_u30
get_u30-decode ba v = get_u30_loop-decode 5 0 0 ba (unread ba) v refl

-- Where the unread bytes begin with those of a uint32_t, `get_u30` returns it and leaves the rest.
pub get_u30-encode :
    (ba : ByteArray) (u : ℕ) (rest : List ℕ)
    → IsValid ba
    → u < 2 ^ 32
    → unread ba ≡ encode 5 u ++ rest
    → (c : ℕ) × (ba.offset + c ≤ ba.total)
      × (get_u30 ba ≡ (some u, advance ba c))
      × (unread (advance ba c) ≡ rest)
get_u30-encode ba u rest v small e =
    let found : decode 5 0 0 (unread ba) ≡ some (u, rest) = rw e (decode-encode u rest small) in
    let (c, fits, same, after) = get_u30-decode ba v in
    (c, fits, same ∙ ap (λ d. (Option.map (λ x. x.0) d, advance ba c)) found, after u rest found)

-- With five bytes unread, get_u30 on a valid array returns a value below 2 ^ 32.
pub get_u30_total :
    (ba : ByteArray)
    → IsValid ba
    → 5 ≤ length (unread ba)
    → (u : ℕ) × ((get_u30 ba).0 ≡ some u) × (u < 2 ^ 32)
get_u30_total ba v enough =
    let ((u, rest), found) = decode_total 5 0 0 (unread ba) enough refl (omega arith) in
    let (c, fits, got, left) = get_u30-decode ba v in
    (
      u,
      ap (λ r. r.0) got ∙ ap (Option.map (λ x. x.0)) found,
      (decode_bounds 5 0 0 (unread ba) u rest (omega arith) found).0,
    )
