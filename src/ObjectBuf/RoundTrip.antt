-- ===== src/ObjectBuf/RoundTrip.antt =====
-- src/objectbuf.c: objectbuf_encode and then objectbuf_decode.
use luafan.Common.{
  ℕ, ◌<◌, ◌^◌, ◌≡◌, refl, true, false, List, length, ltb, ltb→lt, Bool-cases, inl, inr, arith,
}
use luafan.ByteArray.State.{Heap}
use luafan.ByteArray.Read.{read8}
use luafan.ByteArray.Mode.{wrap_buffer}
use luafan.ObjectBuf.Objects.{
  Object, no_object, boolean, whole, real, string, table, function, other, Tables,
}
use luafan.ObjectBuf.Pack.{fits_u30, is_nan, packer, max_u30}
use luafan.ObjectBuf.Encode.{Numbers, no_symbols, bytes, objectbuf_encode}
use luafan.ObjectBuf.Decode.{got, objectbuf_decode, decode_flag}
use luafan.ObjectBuf.Scalars.{encode-u30, encode-number, encode-string}
use luafan.ObjectBuf.Restores.{decode-u30, decode-number, decode-string}

-- Lua reads the number back from its 64 bits.
abbrev pub KeepsBits : Numbers → Object → Type 0
KeepsBits num v = (num.to_bits v < 2 ^ 64) × (num.of_bits (num.to_bits v) ≡ v)

-- a boolean, a number that is not NaN, or a string below 1 GiB
abbrev pub IsScalar : Numbers → Object → Type 0
IsScalar num (boolean b) = Unit
IsScalar num (whole n) = KeepsBits num (whole n)
IsScalar num (real n) = (is_nan (real n) ≡ false) × KeepsBits num (real n)
IsScalar num (string s) = length s < 2 ^ 30
IsScalar num no_object = ⊥
IsScalar num (table a) = ⊥
IsScalar num (function n) = ⊥
IsScalar num (other n) = ⊥

module _ (h : Heap) (grants : (n : ℕ) → h.grants n ≡ true) (num : Numbers) (from to : Tables) where
  -- What the encoder makes of a value, the decoder turns into that value.
  abbrev pub Restored : Object → Type 0
  Restored v =
      (bs : List ℕ) × (objectbuf_encode h num from no_symbols v ≡ bytes bs)
      × (objectbuf_decode num no_symbols to bs ≡ got (v, to))

  restores-whole : (n : ℕ) → KeepsBits num (whole n) → Restored (whole n)
  unfolding objectbuf_encode packer fits_u30 is_nan
  restores-whole n keeps = elim (Bool-cases (ltb n max_u30)) [
    | inl small ↦ (
      _,
      encode-u30 h grants num from n (ltb→lt n max_u30 small),
      decode-u30 num to n (ltb→lt n max_u30 small),
    )
    | inr large ↦ (
      _,
      encode-number h grants num from (whole n) refl refl large,
      decode-number num to (whole n) keeps.0 keeps.1,
    )
  ]

  -- On a heap that grants every request and without symbols, objectbuf_encode makes of a boolean,
  -- of a number that is not NaN and keeps its value through its 64 bits, or of a string below 2 ^
  -- 30 bytes some bytes that objectbuf_decode turns into that value, with no change to the tables.
  pub objectbuf_decode-objectbuf_encode : (v : Object) → IsScalar num v → Restored v
  unfolding objectbuf_encode objectbuf_decode decode_flag packer fits_u30 is_nan read8 wrap_buffer
  objectbuf_decode-objectbuf_encode (boolean true) i = (_, refl, refl)
  objectbuf_decode-objectbuf_encode (boolean false) i = (_, refl, refl)
  objectbuf_decode-objectbuf_encode (whole n) i = restores-whole n i
  objectbuf_decode-objectbuf_encode (real n) (clear, keeps) = (
    _,
    encode-number h grants num from (real n) refl clear refl,
    decode-number num to (real n) keeps.0 keeps.1,
  )
  objectbuf_decode-objectbuf_encode (string s) i =
      (_, encode-string h grants num from s (omega arith), decode-string num to s i)
  objectbuf_decode-objectbuf_encode no_object i = absurd i
  objectbuf_decode-objectbuf_encode (table a) i = absurd i
  objectbuf_decode-objectbuf_encode (function n) i = absurd i
  objectbuf_decode-objectbuf_encode (other n) i = absurd i
