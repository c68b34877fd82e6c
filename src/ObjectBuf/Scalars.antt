-- ===== src/ObjectBuf/Scalars.antt =====
-- src/objectbuf.c: encode of a value that is no table, and decode of the bytes.
use luafan.Common.{
  ℕ, ◌^◌, ◌≤◌, ◌<◌, ◌≡◌, refl, ap, ◌∙◌, bit_or, ltb, true, false, List, [], ◌∷◌, ◌++◌, length,
  length-append, arith,
}
use luafan.Common.Words.{le_bytes, length-le_bytes}
use luafan.ByteArray.State.{Heap, ByteArray}
use luafan.ByteArray.Write.{write64d}
use luafan.ByteArray.Contents.{written}
use luafan.ByteArray.Append.{IsWriting, Appended, write_value-Appended}
use luafan.Stream.Add.{add_u30, add_d64, add_string}
use luafan.Stream.Varint.{encode, length-encode}
use luafan.Stream.U30.{add_u30-Appended}
use luafan.Stream.Text.{add_string-Appended}
use luafan.ObjectBuf.Objects.{Object, whole, string, Tables, contains}
use luafan.ObjectBuf.Pack.{
  Ctx, ctx_init, packed, packer, packer_number, packer_string, fits_u30, is_nan, max_u30,
}
use luafan.ObjectBuf.Encode.{
  Numbers, no_symbols, Body, first_body, encode_packed, integer_of, bytes_of_string, bytes,
  add_section, add_numbers, add_u30s, add_strings, add_table_section, encode_body, finish_body,
  objectbuf_encode,
}
use luafan.ObjectBuf.Bytes.{IsOpen, finish_body_lem, section-Appended, start-IsOpen}

module _ (h : Heap) (grants : (n : ℕ) → h.grants n ≡ true) (num : Numbers) (store : Tables) where
  -- A section behind the flag.
  one_section :
      (add : ByteArray → Object → ByteArray) (mask : ℕ) (v : Object) (p : List ℕ)
      → ((d : ByteArray) → IsWriting d → d.offset ≡ 0 → Appended d (add d v) p)
      → length p ≤ 2 ^ 60
      → (b : Body) → IsOpen b.stream
      → (b.stream.offset ≡ 1)
      → (written b.stream ≡ 0 ∷ [])
      → finish_body h num (add_section h num add mask [] (v ∷ []) b)
        ≡ bit_or b.flag mask ∷ (encode 5 1 ++ p)
  unfolding add_section
  one_section add mask v p adds short b o at e =
      let s =
        section-Appended h grants num add mask v p (0 ∷ []) b adds short o (omega (arith, at)) e in
      finish_body_lem h num (add_section h num add mask [] (v ∷ []) b) 0 (encode 5 1 ++ p) s.0 s.1
      ∙ ap (λ f. f ∷ (encode 5 1 ++ p)) (flag_of add mask v b)
    where
      flag_of :
          (add : ByteArray → Object → ByteArray) (mask : ℕ) (v : Object) (b : Body)
          → (add_section h num add mask [] (v ∷ []) b).flag ≡ bit_or b.flag mask
      flag_of add mask v b = refl

  pub encode-u30 :
      (n : ℕ)
      → n < 2 ^ 32
      → objectbuf_encode h num store no_symbols (whole n) ≡ bytes (64 ∷ (encode 5 1 ++ encode 5 n))
  unfolding objectbuf_encode packer packer_number ctx_init contains fits_u30 is_nan encode_body
      add_u30s add_numbers add_strings add_table_section
  encode-u30 n small =
      let fits : ltb n max_u30 ≡ true = ground arith in
      let start = start-IsOpen h grants in
      rw fits (
        ap bytes (
          one_section (λ d v. add_u30 h d (integer_of v)) 64 (whole n) (encode 5 n)
            (λ d w at. add_u30-Appended h grants d n w small (omega (arith, at)))
            (omega (arith, length-encode 4 n)) (first_body h num no_symbols) start.0 start.2
            start.1))

  abbrev only_number : Object → Ctx
  only_number v = record { tables = []; numbers = v ∷ []; u30s = []; strings = []; funcs = [] }

  packs_number :
      (v : Object)
      → is_nan v ≡ false
      → fits_u30 v ≡ false
      → packer_number v ctx_init ≡ packed (only_number v)
  unfolding packer_number ctx_init contains
  packs_number v clear large = rw (clear, large) refl

  number_bytes :
      (v : Object)
      → encode_packed h num store no_symbols (packed (only_number v))
        ≡ bytes (128 ∷ (encode 5 1 ++ le_bytes 8 (num.to_bits v)))
  unfolding encode_body add_u30s add_numbers add_strings add_table_section add_d64 write64d
  number_bytes v =
      let start = start-IsOpen h grants in
      let size = length-le_bytes 8 (num.to_bits v) in
      ap bytes (
        one_section (λ d x. add_d64 h d (num.to_bits x)) 128 v (le_bytes 8 (num.to_bits v))
          (λ d w at.
            write_value-Appended h grants d (le_bytes 8 (num.to_bits v)) w
              (omega (arith, at, size)))
          (omega (arith, size)) (first_body h num no_symbols) start.0 start.2 start.1)

  pub encode-number :
      (v : Object)
      → (objectbuf_encode h num store no_symbols v
          ≡ encode_packed h num store no_symbols (packer_number v ctx_init))
      → is_nan v ≡ false
      → fits_u30 v ≡ false
      → objectbuf_encode h num store no_symbols v
        ≡ bytes (128 ∷ (encode 5 1 ++ le_bytes 8 (num.to_bits v)))
  encode-number v is clear large =
      is ∙ ap (encode_packed h num store no_symbols) (packs_number v clear large) ∙ number_bytes v

  pub encode-string :
      (s : List ℕ)
      → length s < 2 ^ 32
      → objectbuf_encode h num store no_symbols (string s)
        ≡ bytes (32 ∷ (encode 5 1 ++ (encode 5 (length s) ++ s)))
  unfolding objectbuf_encode packer packer_string ctx_init contains encode_body add_u30s add_numbers
      add_strings add_table_section
  encode-string s small =
      let start = start-IsOpen h grants in
      ap bytes (
        one_section (λ d v. add_string h d (bytes_of_string v)) 32 (string s)
          (encode 5 (length s) ++ s)
          (λ d w at. add_string-Appended h grants d s w small (omega (arith, at)))
          (omega (arith, length-append (encode 5 (length s)) s, length-encode 4 (length s)))
          (first_body h num no_symbols) start.0 start.2 start.1)
