-- ===== src/ByteArray/Append.antt =====
-- src/bytearray.c: writing to an array that may grow, on a heap that grants what is asked.
use luafan.Common.{
  ℕ, ◌+◌, ◌^◌, ◌≤◌, ◌≡◌, refl, ap, ◌∙◌, Bool, true, false, List, [], ◌∷◌, ◌++◌, length, leb, ◌||◌,
  append_assoc, length-append, arith,
}
use luafan.ByteArray.State.{Heap, ByteArray, is_null}
use luafan.ByteArray.Write.{write_value, write8}
use luafan.ByteArray.Inv.{IsValid}
use luafan.ByteArray.Contents.{written, length-written, write_value-Writes, write8-eq-write_value}

-- A valid array that is being written, in a block of its own.
pub record IsWriting (ba : ByteArray) : Type 0 where
  pub valid : IsValid ba
  pub owned : ba.wrapbuffer ≡ false
  pub mode : ba.reading ≡ false

-- `after` is `ba` with `bs` written behind its bytes.
pub record Appended (ba after : ByteArray) (bs : List ℕ) : Type 0 where
  pub writing : IsWriting after
  pub bytes : written after ≡ written ba ++ bs
  pub mark : after.mark ≡ ba.mark
  pub null : is_null ba.buffer ≡ false → is_null after.buffer ≡ false

pub offset-Appended :
    {ba after : ByteArray} {bs : List ℕ}
    → IsValid ba
    → Appended ba after bs
    → after.offset ≡ ba.offset + length bs
offset-Appended {ba} {after} {bs} v a = omega (
  arith,
  ap (length {0}) a.bytes,
  length-append (written ba) bs,
  length-written ba v,
  length-written after a.writing.valid,
)

pub Appended-trans :
    {a b c : ByteArray} {xs ys : List ℕ}
    → Appended a b xs
    → Appended b c ys
    → Appended a c (xs ++ ys)
Appended-trans {a = a} {xs = xs} {ys = ys} p q = record {
  writing = q.writing;
  bytes = q.bytes ∙ ap (λ t. t ++ ys) p.bytes ∙ append_assoc (written a) xs ys;
  mark = q.mark ∙ p.mark;
  null = λ n. q.null (p.null n);
}

module _ (h : Heap) (grants : (n : ℕ) → h.grants n ≡ true) where
  or_true : (b : Bool) → (b || true) ≡ true
  or_true true = refl
  or_true false = refl

  -- A write that may grow the block is accepted.
  pub write_value-accepted :
      (ba : ByteArray) (value : List ℕ)
      → IsWriting ba
      → ba.offset + length value ≤ 2 ^ 62
      → (write_value h ba value).0 ≡ true
  write_value-accepted ba value w fits =
      (write_value-Writes h ba value w.valid fits).done
      ∙ rw (w.owned, grants) (or_true (leb (ba.offset + length value) ba.total))

  pub write_value-Appended :
      (ba : ByteArray) (value : List ℕ)
      → IsWriting ba
      → ba.offset + length value ≤ 2 ^ 62
      → Appended ba (write_value h ba value).1 value
  write_value-Appended ba value w fits =
      let r = write_value-Writes h ba value w.valid fits in
      record {
        writing = record {
          valid = r.valid;
          owned = r.wrapbuffer ∙ w.owned;
          mode = r.reading ∙ w.mode;
        };
        bytes = r.bytes (write_value-accepted ba value w fits);
        mark = r.mark;
        null = r.null;
      }

  pub write8-Appended :
      (ba : ByteArray) (b : ℕ)
      → IsWriting ba
      → ba.offset + 1 ≤ 2 ^ 62
      → Appended ba (write8 h ba b).1 (b ∷ [])
  write8-Appended ba b w fits =
      rw (write8-eq-write_value h ba b w.valid) (write_value-Appended ba (b ∷ []) w fits)
