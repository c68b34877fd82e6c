-- ===== src/ObjectBuf/Bytes.antt =====
-- src/objectbuf.c: the bytes that encode writes for a value that is no table.
use luafan.Common.{
  ℕ, zero, suc, ◌+◌, ◌^◌, ◌≤◌, ◌<◌, ◌≡◌, refl, ap, ◌∙◌, true, false, List, [], ◌∷◌, ◌++◌, length,
  take, drop, blit, arith, ◌==◌, if◌then◌else◌,
}
use luafan.ByteArray.State.{Heap, ByteArray, bytes_of, is_null}
use luafan.ByteArray.Grow.{malloc}
use luafan.ByteArray.Write.{write8, writebuffer}
use luafan.ByteArray.Mode.{alloc, read_ready}
use luafan.ByteArray.Contents.{written, length-written}
use luafan.ByteArray.Modes.{alloc_lem}
use luafan.ByteArray.Append.{
  IsWriting, Appended, Appended-trans, offset-Appended, write_value-Appended, write8-Appended,
}
use luafan.Stream.Add.{add_u30}
use luafan.Stream.Varint.{encode, length-encode}
use luafan.Stream.U30.{add_u30-Appended}
use luafan.ObjectBuf.Objects.{Object, index_in}
use luafan.ObjectBuf.Encode.{
  Numbers, blank, whole_bytes, Body, add_value, add_values, add_section, finish_body,
}

-- A writing array with a block.
pub record IsOpen (ba : ByteArray) : Type 0 where
  pub writing : IsWriting ba
  pub has_block : is_null ba.buffer ≡ false

whole_bytes-read_ready : (ba : ByteArray) → IsOpen ba → whole_bytes (read_ready ba).1 ≡ written ba
unfolding read_ready
whole_bytes-read_ready ba o = rw (o.has_block, o.writing.mode) refl

take-blit_first :
    (n f z : ℕ) (bs rest : List ℕ) → take n bs ≡ z ∷ rest → take n (blit bs 0 (f ∷ [])) ≡ f ∷ rest
take-blit_first zero f z bs rest e = cc
take-blit_first (suc n) f z [] rest e = cc
take-blit_first (suc n) f z (x ∷ []) rest e = ap (λ t. f ∷ drop 1 t) e
take-blit_first (suc n) f z (x ∷ y ∷ bs) rest e = ap (λ t. f ∷ drop 1 t) e

pub finish_body_lem :
    (h : Heap) (num : Numbers) (b : Body) (z : ℕ) (rest : List ℕ)
    → IsOpen b.stream
    → written b.stream ≡ z ∷ rest
    → finish_body h num b ≡ b.flag ∷ rest
unfolding finish_body read_ready
finish_body_lem h num b z rest o e =
    rw (o.has_block, o.writing.mode)
      (take-blit_first b.stream.offset b.flag z (bytes_of b.stream.buffer) rest e)

module _ (h : Heap) (grants : (n : ℕ) → h.grants n ≡ true) where
  alloc-granted :
      (n : ℕ) → ((alloc h blank n).0 ≡ true) × (is_null (alloc h blank n).1.buffer ≡ false)
  unfolding alloc malloc
  alloc-granted n = let size = if n == 0 then 128 else n in rw (grants size) (refl, refl)

  alloc-IsOpen :
      (n : ℕ)
      → n < 2 ^ 32
      → IsOpen (alloc h blank n).1
        × (written (alloc h blank n).1 ≡ [])
        × ((alloc h blank n).1.offset ≡ 0)
  alloc-IsOpen n small =
      let g = alloc-granted n in
      let a = alloc_lem h blank n small g.0 in
      (
        record { writing = record { valid = a.0; owned = a.4; mode = a.3 }; has_block = g.1 },
        a.2,
        omega (arith, length-written (alloc h blank n).1 a.0, ap (length {A = ℕ}) a.2),
      )

  -- A value that `add` writes as `p`, in a section of its own behind the bytes `w`.
  pub section-Appended :
      (num : Numbers) (add : ByteArray → Object → ByteArray) (mask : ℕ) (v : Object) (p w : List ℕ)
      (b : Body)
      → ((d : ByteArray) → IsWriting d → d.offset ≡ 0 → Appended d (add d v) p)
      → length p ≤ 2 ^ 60
      → IsOpen b.stream
      → b.stream.offset ≤ 2 ^ 60
      → written b.stream ≡ w
      → let b1 = add_section h num add mask [] (v ∷ []) b in
        IsOpen b1.stream × (written b1.stream ≡ w ++ (encode 5 1 ++ p))
  unfolding add_section add_values add_value index_in writebuffer
  section-Appended num add mask v p w b adds short o low e =
      let fresh = alloc-IsOpen 0 (omega arith) in
      let added = adds (alloc h blank 0).1 fresh.0.writing fresh.2 in
      let d : IsOpen (add (alloc h blank 0).1 v) = record {
        writing = added.writing;
        has_block = added.null fresh.0.has_block;
      } in
      let payload =
        whole_bytes-read_ready (add (alloc h blank 0).1 v) d
        ∙ added.bytes
        ∙ ap (λ t. t ++ p) fresh.1 in
      let count = add_u30-Appended h grants b.stream 1 o.writing (omega arith) (omega arith) in
      let behind = offset-Appended o.writing.valid count in
      let last =
        write_value-Appended h grants (add_u30 h b.stream 1) p count.writing
          (omega (arith, behind, length-encode 4 1)) in
      let both = Appended-trans count last in
      rw payload (
        record { writing = both.writing; has_block = both.null o.has_block },
        both.bytes ∙ ap (λ t. t ++ (encode 5 1 ++ p)) e,
      )

  -- The body before its sections: the place of the flag.
  pub start-IsOpen :
      let stream = (write8 h (alloc h blank 64).1 0).1 in
      IsOpen stream × (written stream ≡ 0 ∷ []) × (stream.offset ≡ 1)
  start-IsOpen =
      let fresh = alloc-IsOpen 64 (omega arith) in
      let a =
        write8-Appended h grants (alloc h blank 64).1 0 fresh.0.writing (omega (arith, fresh.2)) in
      (
        record { writing = a.writing; has_block = a.null fresh.0.has_block },
        a.bytes ∙ ap (λ t. t ++ (0 ∷ [])) fresh.1,
        offset-Appended fresh.0.writing.valid a ∙ ap (λ (o : ℕ). o + 1) fresh.2,
      )
