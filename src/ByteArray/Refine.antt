-- ===== src/ByteArray/Refine.antt =====
-- src/bytearray.c and the queue of `Script`: the same sequence of calls on both.
use luafan.Common.{
  ℕ, ◌+◌, ◌^◌, ◌≤◌, ◌<◌, ◌≡◌, refl, ap, ap₂, ◌∙◌, inl, inr, Bool, true, false, Option, none, some,
  List, [], ◌∷◌, ◌++◌, leb, if◌then◌else◌, length, take, drop, length-append, length-drop,
  Bool-cases, ◌||◌, arith,
}
use luafan.ByteArray.State.{Heap, ByteArray, is_null, sub_size}
use luafan.ByteArray.Write.{writebuffer, write_value}
use luafan.ByteArray.Read.{readbuffer, read_value}
use luafan.ByteArray.Mode.{read_ready, write_ready, move_down}
use luafan.ByteArray.Inv.{IsValid}
use luafan.ByteArray.Contents.{written, unread, length-written, write_value-Writes}
use luafan.ByteArray.Reads.{read_value-Reads}
use luafan.ByteArray.Modes.{read_ready_lem, read_ready_keeps, write_ready_lem}
use luafan.ByteArray.Script.{
  Op, put, get, to_read, to_write, flag, bytes, step, run, Pipe, pipe_step, pipe_run, IsModed,
  put_size,
}

abbrev pub contents : ByteArray → List ℕ
contents ba = if ba.reading then unread ba else written ba

or_true : (b : Bool) → (b || true) ≡ true
or_true true = refl
or_true false = refl

-- `ba` holds the bytes of `p`, in the mode of `p`, in a block of its own.
pub record Holds (ba : ByteArray) (p : Pipe) : Type 0 where
  pub valid : IsValid ba
  pub there : is_null ba.buffer ≡ false
  pub owned : ba.wrapbuffer ≡ false
  pub mode : ba.reading ≡ p.reading
  pub same : contents ba ≡ p.content

IsModed-put :
    (reading : Bool) (bs : List ℕ) (os : List Op)
    → IsModed reading (put bs ∷ os)
    → (reading ≡ false) × IsModed false os
IsModed-put true bs os m = absurd m
IsModed-put false bs os m = (refl, m)

IsModed-get :
    (reading : Bool) (n : ℕ) (os : List Op)
    → IsModed reading (get n ∷ os)
    → (reading ≡ true) × IsModed true os
IsModed-get true n os m = (refl, m)
IsModed-get false n os m = absurd m

pipe_put :
    (p : Pipe) (bs : List ℕ)
    → ((pipe_step p (put bs)).1.reading ≡ p.reading)
      × ((pipe_step p (put bs)).1.content ≡ p.content ++ bs)
unfolding pipe_step
pipe_put p bs = (refl, refl)

pipe_get :
    (p : Pipe) (n : ℕ)
    → ((pipe_step p (get n)).1.reading ≡ p.reading)
      × (length (pipe_step p (get n)).1.content ≤ length p.content)
unfolding pipe_step
pipe_get p n = ground (arith, length-drop n p.content)

module _ (h : Heap) (grants : (n : ℕ) → h.grants n ≡ true) where
  put_refines :
      (ba : ByteArray) (p : Pipe) (bs : List ℕ)
      → Holds ba p
      → p.reading ≡ false
      → length p.content + length bs ≤ 2 ^ 62
      → ((step h ba (put bs)).0 ≡ (pipe_step p (put bs)).0)
        × Holds (step h ba (put bs)).1 (pipe_step p (put bs)).1
  unfolding step pipe_step writebuffer
  put_refines ba p bs k w fits =
      let same : written ba ≡ p.content = rw (k.mode ∙ w) at k.same in
      let start : ba.offset + length bs ≤ 2 ^ 62 =
        omega (arith, ap (length {0}) same, length-written ba k.valid) in
      let r = write_value-Writes h ba bs k.valid start in
      let ok : (write_value h ba bs).0 ≡ true =
        r.done ∙ rw (k.owned, grants) (or_true (leb (ba.offset + length bs) ba.total)) in
      (
        ap flag ok,
        record {
          valid = r.valid;
          there = r.null k.there;
          owned = r.wrapbuffer ∙ k.owned;
          mode = r.reading ∙ k.mode;
          same = rw (r.reading ∙ k.mode ∙ w) (r.bytes ok ∙ ap (λ xs. xs ++ bs) same);
        },
      )

  get_refines :
      (ba : ByteArray) (p : Pipe) (n : ℕ)
      → Holds ba p
      → p.reading ≡ true
      → ((step h ba (get n)).0 ≡ (pipe_step p (get n)).0)
        × Holds (step h ba (get n)).1 (pipe_step p (get n)).1
  unfolding step pipe_step readbuffer
  get_refines ba p n k w =
      let same : unread ba ≡ p.content = rw (k.mode ∙ w) at k.same in
      let size : length (unread ba) ≡ length p.content = ap length same in
      let r = read_value-Reads ba n k.valid in
      let kept : is_null (read_value ba n).1.buffer ≡ false = ap is_null r.block ∙ k.there in
      elim (Bool-cases (leb n (length p.content))) [
        | inl t ↦
            let enough : n ≤ length (unread ba) = ground arith in
            rw t (
              ap bytes (r.enough enough) ∙ ap (λ xs. bytes (some (take n xs))) same,
              record {
                valid = r.valid;
                there = kept;
                owned = r.wrapbuffer ∙ k.owned;
                mode = r.reading ∙ k.mode;
                same = rw (r.reading ∙ k.mode ∙ w) (r.rest enough ∙ ap (drop n) same);
              },
            )
        | inr t ↦
            let short : length (unread ba) < n = ground arith in
            rw (t, r.short short, r.unchanged short) (refl, k)
      ]

  -- a turn in the wrong mode is refused and changes nothing
  read_ready_refused : (ba : ByteArray) → ba.reading ≡ true → read_ready ba ≡ (false, ba)
  unfolding read_ready
  read_ready_refused ba q = simp (q, or_true) refl

  write_ready_refused : (ba : ByteArray) → ba.reading ≡ false → write_ready ba ≡ (false, ba)
  unfolding write_ready
  write_ready_refused ba q = simp q refl

  is_null-move_down : (b : Option (List ℕ)) (i n : ℕ) → is_null (move_down b i n) ≡ is_null b
  is_null-move_down none i n = refl
  is_null-move_down (some bs) i n = refl

  write_ready_keeps :
      (ba : ByteArray)
      → (is_null (write_ready ba).1.buffer ≡ is_null ba.buffer)
        × ((write_ready ba).1.wrapbuffer ≡ ba.wrapbuffer)
  unfolding write_ready
  write_ready_keeps ba =
      ground (arith, is_null-move_down ba.buffer ba.offset (sub_size ba.total ba.offset))

  to_read_refines :
      (ba : ByteArray) (p : Pipe)
      → Holds ba p
      → ((step h ba to_read).0 ≡ (pipe_step p to_read).0)
        × Holds (step h ba to_read).1 (pipe_step p to_read).1
        × ((pipe_step p to_read).1.reading ≡ true)
        × ((pipe_step p to_read).1.content ≡ p.content)
  unfolding step pipe_step
  to_read_refines ba p k = elim (Bool-cases p.reading) [
    | inl w ↦ rw (read_ready_refused ba (k.mode ∙ w)) (
        rw w (
          refl,
          record {
            valid = k.valid;
            there = k.there;
            owned = k.owned;
            mode = k.mode ∙ w;
            same = k.same;
          },
          refl,
          refl,
        ))
    | inr w ↦
        let same : written ba ≡ p.content = rw (k.mode ∙ w) at k.same in
        let (ok, valid, mode, handed) = read_ready_lem ba k.valid k.there (k.mode ∙ w) in
        rw w (
          ap flag ok,
          record {
            valid = valid;
            there = ap is_null (read_ready_keeps ba).0 ∙ k.there;
            owned = (read_ready_keeps ba).1 ∙ k.owned;
            mode = mode;
            same = rw mode (handed ∙ same);
          },
          refl,
          refl,
        )
  ]

  to_write_refines :
      (ba : ByteArray) (p : Pipe)
      → Holds ba p
      → ((step h ba to_write).0 ≡ (pipe_step p to_write).0)
        × Holds (step h ba to_write).1 (pipe_step p to_write).1
        × ((pipe_step p to_write).1.reading ≡ false)
        × ((pipe_step p to_write).1.content ≡ p.content)
  unfolding step pipe_step
  to_write_refines ba p k = elim (Bool-cases p.reading) [
    | inl w ↦
        let same : unread ba ≡ p.content = rw (k.mode ∙ w) at k.same in
        let (ok, valid, marked, mode, handed) = write_ready_lem ba k.valid k.there (k.mode ∙ w) in
        rw w (
          ap flag ok,
          record {
            valid = valid;
            there = (write_ready_keeps ba).0 ∙ k.there;
            owned = (write_ready_keeps ba).1 ∙ k.owned;
            mode = mode;
            same = rw mode (handed ∙ same);
          },
          refl,
          refl,
        )
    | inr w ↦ rw (write_ready_refused ba (k.mode ∙ w)) (
        rw w (
          refl,
          record {
            valid = k.valid;
            there = k.there;
            owned = k.owned;
            mode = k.mode ∙ w;
            same = k.same;
          },
          refl,
          refl,
        ))
  ]

  -- On a heap that grants every request, every script of puts, gets and turns in the right mode, of
  -- at most 2 ^ 62 bytes in all, gets the same replies from a byte array as from the queue of the
  -- bytes that it holds.
  pub run_refines :
      (os : List Op) (ba : ByteArray) (p : Pipe)
      → Holds ba p
      → IsModed p.reading os
      → length p.content + put_size os ≤ 2 ^ 62
      → run h ba os ≡ pipe_run p os
  unfolding run pipe_run
  run_refines [] ba p k m fits = refl
  run_refines (put bs ∷ os) ba p k m fits =
      let (w, m') = IsModed-put p.reading bs os m in
      let (reading, content) = pipe_put p bs in
      let (same, k') = put_refines ba p bs k w (omega arith) in
      ap₂ ◌∷◌ same (
        run_refines os (step h ba (put bs)).1 (pipe_step p (put bs)).1 k' (rw (reading ∙ w) m')
          (omega (arith, ap (length {0}) content, length-append p.content bs)))
  run_refines (get n ∷ os) ba p k m fits =
      let (w, m') = IsModed-get p.reading n os m in
      let (reading, content) = pipe_get p n in
      let (same, k') = get_refines ba p n k w in
      ap₂ ◌∷◌ same (
        run_refines os (step h ba (get n)).1 (pipe_step p (get n)).1 k' (rw (reading ∙ w) m')
          (omega arith))
  run_refines (to_read ∷ os) ba p k m fits =
      let (same, k', mode, content) = to_read_refines ba p k in
      ap₂ ◌∷◌ same (
        run_refines os (step h ba to_read).1 (pipe_step p to_read).1 k' (rw mode m)
          (omega (arith, ap length content)))
  run_refines (to_write ∷ os) ba p k m fits =
      let (same, k', mode, content) = to_write_refines ba p k in
      ap₂ ◌∷◌ same (
        run_refines os (step h ba to_write).1 (pipe_step p to_write).1 k' (rw mode m)
          (omega (arith, ap length content)))
