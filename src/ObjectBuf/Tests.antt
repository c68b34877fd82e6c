-- ===== src/ObjectBuf/Tests.antt =====
-- The object packer at concrete inputs.
use luafan.Common.{ℕ, ◌≡◌, refl, Option, none, some, List, [], ◌∷◌, ltb, arith, if◌then◌else◌}
use luafan.ByteArray.Samples.{roomy}
use luafan.ObjectBuf.Objects.{Object, whole, real, string, table, Tables}
use luafan.ObjectBuf.Pack.{objectbuf_symbol, is_nan}
use luafan.ObjectBuf.Encode.{Numbers, no_symbols, objectbuf_encode, Encoded}
use luafan.ByteArray.Read.{read8}
use luafan.ByteArray.Mode.{wrap_buffer}
use luafan.Stream.Get.{get_u30, get_u30_loop}
use luafan.ObjectBuf.Decode.{
  Got, endless, decode_flag, decode_sections, read_scalars, read_section, read_table_section,
  make_tables, objectbuf_decode,
}
use luafan.ObjectBuf.Packs.{Complete, objectbuf_symbol_lem}
use luafan.ObjectBuf.RoundTrip.{IsScalar, Restored, objectbuf_decode-objectbuf_encode}
use luafan.ObjectBuf.Total.{Ended, table_count, objectbuf_decode_total}

abbrev bits : Object → ℕ
bits (real n) = n
bits (whole n) = n
bits _ = 0

abbrev digit : List ℕ → Option ℕ
digit (c ∷ []) = if ltb 48 c then some 1 else none
digit _ = none

abbrev plain_numbers : Numbers
plain_numbers = record { to_bits = bits; of_bits = real; numeral = digit }

abbrev encoded_five : Encoded roomy plain_numbers
encoded_five = objectbuf_encode roomy plain_numbers [] no_symbols (whole 5)

-- a table that holds 7, "x" and itself
abbrev knot : Tables
knot = ((whole 1, whole 7) ∷ (whole 2, string (120 ∷ [])) ∷ (string (49 ∷ []), table 0) ∷ []) ∷ []

abbrev encoded_knot : Encoded roomy plain_numbers
encoded_knot = objectbuf_encode roomy plain_numbers knot no_symbols (table 0)

abbrev decoded : Got (Object × Tables)
decoded = objectbuf_decode plain_numbers no_symbols [] (64 ∷ 1 ∷ 5 ∷ [])

objectbuf_symbol_lem_example : Complete knot (table 0) (objectbuf_symbol knot (table 0))
objectbuf_symbol_lem_example = objectbuf_symbol_lem knot (table 0)

-- the number pi
pi_IsScalar : IsScalar plain_numbers (real 4614256656552045848)
unfolding is_nan
pi_IsScalar = (refl, (omega arith, refl))

objectbuf_decode-objectbuf_encode_example :
    Restored roomy (λ n. refl) plain_numbers [] knot (real 4614256656552045848)
objectbuf_decode-objectbuf_encode_example =
    objectbuf_decode-objectbuf_encode roomy (λ n. refl) plain_numbers [] knot
      (real 4614256656552045848) pi_IsScalar

objectbuf_decode_total_example :
    Ended
      (table_count plain_numbers no_symbols (8 ∷ 1 ∷ 1 ∷ 0 ∷ []))
      (objectbuf_decode plain_numbers no_symbols [] (8 ∷ 1 ∷ 1 ∷ 0 ∷ []))
objectbuf_decode_total_example =
    objectbuf_decode_total plain_numbers no_symbols [] (8 ∷ 1 ∷ 1 ∷ 0 ∷ []) (omega arith)

-- six bytes that the decoder does not return from
never_decoded :
    objectbuf_decode plain_numbers no_symbols [] (8 ∷ 255 ∷ 255 ∷ 255 ∷ 255 ∷ 15 ∷ []) ≡ endless
unfolding objectbuf_decode decode_flag decode_sections read_scalars read_section read_table_section
    make_tables read8 wrap_buffer get_u30 get_u30_loop
never_decoded = refl
