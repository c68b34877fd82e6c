-- ===== src/ByteArray/Reads.antt =====
-- src/bytearray.c: what the read operations return and leave.
use luafan.Common.{
  ℕ, zero, suc, ◌+◌, ◌-◌, ◌%◌, ◌≤◌, ◌<◌, ◌≡◌, ◌∙◌, refl, sym, ap, inl, inr, true, false, Option,
  none, some, List, [], ◌∷◌, leb, ltb, length, take, drop, slice, get_or, Bool-cases, take-take,
  drop-drop, drop-take, arith,
}
use luafan.Common.Words.{size_mod}
use luafan.ByteArray.State.{ByteArray, sub_size, bytes_of}
use luafan.ByteArray.Read.{read_value, read8}
use native.Mathlib.Decide.{dec_le}
use luafan.ByteArray.Inv.{IsValid}
use luafan.ByteArray.Contents.{unread, length-unread}

-- What a read of `n` bytes does: it succeeds exactly if so many are unread, returns the first of
-- them and leaves the others; if not, it changes nothing.
pub record Reads (ba : ByteArray) (n : ℕ) (r : Option (List ℕ) × ByteArray) : Type 0 where
  pub enough : n ≤ length (unread ba) → r.0 ≡ some (take n (unread ba))
  pub short : length (unread ba) < n → r.0 ≡ none
  pub valid : IsValid r.1
  pub rest : n ≤ length (unread ba) → unread r.1 ≡ drop n (unread ba)
  pub unchanged : length (unread ba) < n → r.1 ≡ ba
  pub block : r.1.buffer ≡ ba.buffer
  pub reading : r.1.reading ≡ ba.reading
  pub mark : r.1.mark ≡ ba.mark
  pub total : r.1.total ≡ ba.total
  pub wrapbuffer : r.1.wrapbuffer ≡ ba.wrapbuffer
  pub buflen : r.1.buflen ≡ ba.buflen

module _ (ba : ByteArray) (n : ℕ) (v : IsValid ba) where
  abbrev pub advanced : ByteArray
  advanced = record ba { offset = ba.offset + n }

  pub unread-advanced : ba.offset + n ≤ ba.total → unread advanced ≡ drop n (unread ba)
  unread-advanced p =
      let split : ba.total - ba.offset ≡ n + (ba.total - (ba.offset + n)) = omega arith in
      let bs = bytes_of ba.buffer in
      sym (
        rw (split, drop-take n (ba.total - (ba.offset + n)) (drop ba.offset bs))
          (ap (take (ba.total - (ba.offset + n))) (drop-drop n ba.offset bs)))

  pub take-unread :
      ba.offset + n ≤ ba.total → slice (bytes_of ba.buffer) ba.offset n ≡ take n (unread ba)
  take-unread p = sym (take-take n _ _ (omega arith))

  pub read_enough :
      ba.offset + n ≤ ba.total → read_value ba n ≡ (some (take n (unread ba)), advanced)
  unfolding read_value
  read_enough p =
      let test : leb n (sub_size ba.total ba.offset) ≡ true = ground arith in
      let sum : (ba.offset + n) % size_mod ≡ ba.offset + n = omega arith in
      rw (test, sum, take-unread p)

  pub read_short : ba.total < ba.offset + n → read_value ba n ≡ (none, ba)
  unfolding read_value
  read_short p = let test : leb n (sub_size ba.total ba.offset) ≡ false = ground arith in rw test

-- A read on a valid array succeeds exactly if so many bytes are unread, returns the first of them
-- and leaves the others; if not, it changes nothing; invariant, block, mode and mark are kept.
pub read_value-Reads : (ba : ByteArray) (n : ℕ) → IsValid ba → Reads ba n (read_value ba n)
read_value-Reads ba n v = elim (dec_le (ba.offset + n) ba.total) [
  | yes p ↦ rw (read_enough ba n v p) (record {
    enough = λ _. refl;
    short = λ q. absurd (omega (arith, length-unread ba v));
    valid = omega arith;
    rest = λ _. unread-advanced ba n v p;
    unchanged = λ q. absurd (omega (arith, length-unread ba v));
    block = refl;
    reading = refl;
    mark = refl;
    total = refl;
    wrapbuffer = refl;
    buflen = refl;
  })
  | no p ↦ rw (read_short ba n v (omega arith)) (record {
    enough = λ q. absurd (omega (arith, length-unread ba v));
    short = λ _. refl;
    valid = v;
    rest = λ q. absurd (omega (arith, length-unread ba v));
    unchanged = λ _. refl;
    block = refl;
    reading = refl;
    mark = refl;
    total = refl;
    wrapbuffer = refl;
    buflen = refl;
  })
]

-- The byte that `read8` takes, as the general path takes it.
abbrev pub head_of : Option (List ℕ) → Option ℕ
head_of none = none
head_of (some bs) = some (get_or bs 0 0)

get_or-drop :
    (i : ℕ) (bs : List ℕ) → i < length bs → get_or bs i 0 ≡ get_or (take 1 (drop i bs)) 0 0
get_or-drop i [] h = absurd (omega arith)
get_or-drop zero (b ∷ bs) h = refl
get_or-drop (suc i) (b ∷ bs) h = get_or-drop i bs (omega arith)

-- On a valid array the fast path of read8 does what the general read does on one byte.
pub read8-eq-read_value :
    (ba : ByteArray) → IsValid ba → read8 ba ≡ (head_of (read_value ba 1).0, (read_value ba 1).1)
unfolding read8
read8-eq-read_value ba v = elim (Bool-cases (ltb ba.offset ba.total)) [
  | inl p ↦
      let test : leb 1 (sub_size ba.total ba.offset) ≡ true = ground arith in
      rw p
        (unfold read_value in rw (test, get_or-drop ba.offset (bytes_of ba.buffer) (ground arith)))
  | inr p ↦
      let test : leb 1 (sub_size ba.total ba.offset) ≡ false = ground arith in
      rw p (unfold read_value in rw test)
]

-- `read8` by what is unread: the first byte, or nothing.
pub read8-nil : (ba : ByteArray) → IsValid ba → unread ba ≡ [] → read8 ba ≡ (none, ba)
unfolding read8
read8-nil ba v e =
    let test : ltb ba.offset ba.total ≡ false =
      ground (arith, length-unread ba v, ap (length {0}) e) in
    rw test

pub read8-cons :
    (ba : ByteArray) (b : ℕ) (rest : List ℕ)
    → IsValid ba
    → unread ba ≡ b ∷ rest
    → (ba.offset + 1 ≤ ba.total)
      × (read8 ba ≡ (some b, record ba { offset = ba.offset + 1 }))
      × (unread (record ba { offset = ba.offset + 1 }) ≡ rest)
read8-cons ba b rest v e =
    let room : ba.offset + 1 ≤ ba.total = omega (arith, length-unread ba v, ap (length {0}) e) in
    let taken : take 1 (unread ba) ≡ b ∷ [] = ap (take 1) e in
    (
      room,
      read8-eq-read_value ba v ∙ rw (read_enough ba 1 v room, taken),
      unread-advanced ba 1 v room ∙ ap (drop 1) e,
    )
