-- ===== src/Json/Append.antt =====
-- src/json.c: what strbuf_append does to the contents of a buffer.
use luafan.Common.{
  ℕ, zero, suc, ◌+◌, ◌-◌, ◌*◌, ◌/◌, ◌%◌, ◌^◌, ◌≤◌, ◌<◌, ◌≡◌, refl, sym, ap, ◌∙◌, Bool, true, false,
  Option, none, some, List, [], ◌∷◌, ◌++◌, ltb, leb, ◌==◌, Bool-cases, inl, inr, length, take, blit,
  length-append, length-take, length-blit, length-tabulate, take-append, take-take, take_all,
  take-blit, tabulate, arith,
}
use luafan.Common.Words.{size_mod}
use native.Mathlib.Nat.{pow-suc}
use luafan.ByteArray.State.{Heap, add_size, bytes_of, is_null}
use luafan.ByteArray.Grow.{realloc}
use luafan.Json.Strbuf.{
  Strbuf, contents, doubled, strbuf_reserve, moved, grow, append_to, strbuf_append,
}

-- The block has the size that the buffer states, with room for the zero behind the contents.
pub record IsValid (b : Strbuf) : Type 0 where
  pub block : List ℕ
  pub is_block : b.data_ ≡ some block
  pub length-block : length block ≡ b.cap
  pub has_room : b.len < b.cap

twice : (n f : ℕ) → n * 2 ^ suc f ≡ n * 2 * 2 ^ f
twice n f = omega (arith, ap (λ (t : ℕ). n * t) (pow-suc 2 f))

pub doubled_lem :
    (f needed ncap : ℕ)
    → needed ≤ 2 ^ 63
    → needed ≤ ncap * 2 ^ f
    → (n : ℕ) × (doubled (suc f) needed ncap ≡ some n) × (needed ≤ n)
unfolding doubled
doubled_lem zero needed ncap h g =
    let done : leb needed ncap ≡ true = ground arith in (ncap, rw done refl, omega arith)
doubled_lem (suc f) needed ncap h g = elim (Bool-cases (leb needed ncap)) [
  | inl e ↦ (ncap, rw e refl, ground arith)
  | inr e ↦
      let low : ltb ((size_mod - 1) / 2) ncap ≡ false = ground arith in
      let more = doubled_lem f needed (ncap * 2) h (omega (arith, twice ncap f)) in
      (more.0, rw (e, low) more.1, more.2)
]

take-blit_zero : (n : ℕ) (xs : List ℕ) → n < length xs → take n (blit xs n (0 ∷ [])) ≡ take n xs
take-blit_zero n xs h =
    let whole = take-blit xs n (0 ∷ []) (omega arith) in
    let cut = take-take n (n + 1) (blit xs n (0 ∷ [])) (omega arith) in
    sym cut
    ∙ ap (take n) whole
    ∙ take-append n (take n xs) (0 ∷ []) (omega (arith, length-take n xs))
    ∙ take-take n n xs (omega arith)

-- On a block with enough room.
put_bytes :
    (len : ℕ) (s p : List ℕ)
    → len + length s + 1 ≤ length p
    → len + length s < 2 ^ 64
    → let end = add_size len (length s) in
      take end (blit (blit p len s) end (0 ∷ [])) ≡ take len p ++ s
put_bytes len s p h g =
    let fits : (len + length s) % size_mod ≡ len + length s = omega arith in
    rw fits (
      take-blit_zero (len + length s) (blit p len s) (omega (arith, length-blit p len s))
      ∙ take-blit p len s (omega arith))

-- What an append does: the bytes stand behind the contents, or nothing has changed.
abbrev pub Appended : Strbuf → List ℕ → Bool × Strbuf → Type 0
Appended b s (true, b1) = IsValid b1 × (contents b1 ≡ contents b ++ s)
Appended b s (false, b1) = b1 ≡ b

-- A buffer with the same contents, and room for `n` bytes and a zero behind them.
record Roomy (b : Strbuf) (n : ℕ) (b1 : Strbuf) : Type 0 where
  block : List ℕ
  is_block : b1.data_ ≡ some block
  length-block : length block ≡ b1.cap
  has_room : b1.len + n + 1 ≤ b1.cap
  is_kept : b1.len ≡ b.len
  same_contents : take b1.len block ≡ contents b

abbrev Reserved : Strbuf → ℕ → Bool × Strbuf → Type 0
Reserved b n (true, b1) = Roomy b n b1
Reserved b n (false, b1) = b1 ≡ b

realloc_lem :
    (h : Heap) (bs : List ℕ) (ncap : ℕ)
    → h.grants ncap ≡ true
    → length bs ≤ ncap
    → (more : List ℕ) × (realloc h (some bs) ncap ≡ some (bs ++ more))
      × (length (bs ++ more) ≡ ncap)
unfolding realloc
realloc_lem h bs ncap g e =
    let whole = take_all ncap bs e in
    let more = tabulate (λ i. h.garbage i % 256) (length bs) (ncap - length bs) in
    (
      more,
      rw (g, whole) refl,
      omega (
        arith,
        length-append bs more,
        length-tabulate (λ i. h.garbage i % 256) (length bs) (ncap - length bs),
      ),
    )

realloc-none :
    (h : Heap) (o : Option (List ℕ)) (ncap : ℕ) → h.grants ncap ≡ false → realloc h o ncap ≡ none
unfolding realloc
realloc-none h o ncap e = rw e refl

module _ (h : Heap) (b : Strbuf) (n : ℕ) (v : IsValid b) where
  grow-Reserved :
      (ncap : ℕ) → b.cap ≤ ncap → b.len + n + 1 ≤ ncap → Reserved b n (grow h b (some ncap))
  grow-Reserved ncap less room = elim (Bool-cases (h.grants ncap)) [
    | inl e ↦
        let r = realloc_lem h v.block ncap e (omega (arith, v.length-block)) in
        let small = v.has_room in
        let moves = ap (λ o. realloc h o ncap) v.is_block ∙ r.1 in
        rw (moves, Reserved)
          record {
            block = v.block ++ r.0;
            is_block = refl;
            length-block = r.2;
            has_room = room;
            is_kept = refl;
            same_contents =
                take-append b.len v.block r.0 (omega (arith, v.length-block))
                ∙ ap (λ o. take b.len (bytes_of o)) (sym v.is_block);
          }
    | inr e ↦ let stays = realloc-none h b.data_ ncap e in rw (stays, Reserved) refl
  ]

  reserve-Reserved : b.len + n < 2 ^ 63 → Reserved b n (strbuf_reserve h b n)
  unfolding strbuf_reserve
  reserve-Reserved small =
      let fits : add_size (add_size b.len n) 1 ≡ b.len + n + 1 = omega arith in
      let open_room = v.has_room in
      let filled : (b.cap == 0) ≡ false = ground arith in
      elim (Bool-cases (leb (b.len + n + 1) b.cap)) [
        | inl e ↦
            let room : b.len + n + 1 ≤ b.cap = ground arith in
            rw (fits, e, Reserved)
              record {
                block = v.block;
                is_block = v.is_block;
                length-block = v.length-block;
                has_room = room;
                is_kept = refl;
                same_contents = ap (λ o. take b.len (bytes_of o)) (sym v.is_block);
              }
        | inr e ↦
            let grown = doubled_lem 64 (b.len + n + 1) b.cap (omega arith) (omega arith) in
            let less : b.cap ≤ grown.0 = let g = grown.2 in ground arith in
            rw (fits, e, filled, grown.1, Reserved) (grow-Reserved grown.0 less grown.2)
      ]

reserve-Appended :
    (b : Strbuf) (s : List ℕ) (r : Bool × Strbuf)
    → b.len + length s < 2 ^ 63
    → Reserved b (length s) r
    → Appended b s (append_to s r)
reserve-Appended b s (false, b1) small h = h
reserve-Appended b s (true, b1) small h = (
  record {
    block = _;
    is_block = refl;
    length-block =
        length-blit _ _ _
        ∙ length-blit _ b1.len s
        ∙ ap (λ t. length (bytes_of t)) h.is_block
        ∙ h.length-block;
    has_room = omega (arith, h.is_kept, h.has_room);
  },
  put_bytes b1.len s (bytes_of b1.data_)
        (omega (arith, ap (λ t. length (bytes_of t)) h.is_block, h.length-block, h.has_room))
        (omega (arith, h.is_kept))
      ∙ ap (λ t. t ++ s) (ap (λ o. take b1.len (bytes_of o)) h.is_block ∙ h.same_contents),
)

-- On a valid string buffer, where the contents and the new bytes are fewer than 2 ^ 63,
-- strbuf_append puts the bytes behind the contents and keeps the buffer valid, or fails and leaves
-- it as it was.
pub strbuf_append_lem :
    (h : Heap) (b : Strbuf) (s : List ℕ)
    → IsValid b
    → b.len + length s < 2 ^ 63
    → Appended b s (strbuf_append h b s)
unfolding strbuf_append
strbuf_append_lem h b s v small =
    let filled : is_null b.data_ ≡ false = ap is_null v.is_block in
    rw (filled, Appended)
      (reserve-Appended b s (strbuf_reserve h b (length s)) small
        (reserve-Reserved h b (length s) v small))

-- On a heap that grants every request, an append succeeds.
module _ (h : Heap) (grants : (n : ℕ) → h.grants n ≡ true) where
  moved-granted : (b : Strbuf) (ncap : ℕ) → (moved b ncap (realloc h b.data_ ncap)).0 ≡ true
  unfolding realloc
  moved-granted b ncap = rw (grants ncap) refl

  reserve-granted :
      (b : Strbuf) (n : ℕ) → IsValid b → b.len + n < 2 ^ 63 → (strbuf_reserve h b n).0 ≡ true
  unfolding strbuf_reserve
  reserve-granted b n v small =
      let fits : add_size (add_size b.len n) 1 ≡ b.len + n + 1 = omega arith in
      let room = v.has_room in
      let filled : (b.cap == 0) ≡ false = ground arith in
      let grown = doubled_lem 64 (b.len + n + 1) b.cap (omega arith) (omega arith) in
      elim (Bool-cases (leb (b.len + n + 1) b.cap)) [
        | inl e ↦ rw (fits, e) refl
        | inr e ↦ rw (fits, e, filled, grown.1) (moved-granted b grown.0)
      ]

  append_to-granted : (s : List ℕ) (r : Bool × Strbuf) → r.0 ≡ true → (append_to s r).0 ≡ true
  append_to-granted s (true, b) e = refl
  append_to-granted s (false, b) e = cc

  pub strbuf_append-granted :
      (b : Strbuf) (s : List ℕ)
      → IsValid b
      → b.len + length s < 2 ^ 63
      → (strbuf_append h b s).0 ≡ true
  unfolding strbuf_append
  strbuf_append-granted b s v small =
      let filled : is_null b.data_ ≡ false = ap is_null v.is_block in
      rw filled
        (append_to-granted s (strbuf_reserve h b (length s)) (reserve-granted b (length s) v small))
