-- ===== src/Stream/Message.antt =====
-- src/stream_ffi.c: a message of fields, added one by one and got back in the same order.
use luafan.Common.{ℕ, ◌^◌, ◌<◌, Option, List, [], ◌∷◌, ◌++◌, length}
use luafan.Common.Int.{ℤ}
use luafan.Common.Words.{le_bytes}
use luafan.ByteArray.State.{Heap, ByteArray}
use luafan.Stream.Add.{add_u8, add_u16, add_u24, add_u30, add_d64, add_string}
use luafan.Stream.Get.{get_u8, get_u16, get_u24, get_s24, get_u30, get_d64, get_string, Text}
use luafan.Stream.Varint.{encode}
use luafan.Stream.Fixed.{bytes_24, pattern_24, IsS24}
use mathlib.Core.Option

pub data Field : Type 0 where
  u8 u16 u24 u30 d64 : ℕ → Field
  s24 : ℤ → Field
  text : List ℕ → Field

-- the values that the C types hold
abbrev pub IsField : Field → Type 0
IsField (u8 n) = n < 2 ^ 8
IsField (u16 n) = n < 2 ^ 16
IsField (u24 n) = n < 2 ^ 24
IsField (u30 n) = n < 2 ^ 32
IsField (d64 n) = n < 2 ^ 64
IsField (s24 z) = IsS24 z
IsField (text bs) = length bs < 2 ^ 32

-- the bytes of a field on the wire
abbrev pub wire : Field → List ℕ
wire (u8 n) = n ∷ []
wire (u16 n) = le_bytes 2 n
wire (u24 n) = bytes_24 n
wire (u30 n) = encode 5 n
wire (d64 n) = le_bytes 8 n
wire (s24 z) = bytes_24 (pattern_24 z)
wire (text bs) = encode 5 (length bs) ++ bs

-- `AddS24` is `add_u24` on the low 24 bits.
unfoldable pub add_field : Heap → ByteArray → Field → ByteArray
add_field h ba (u8 n) = add_u8 h ba n
add_field h ba (u16 n) = add_u16 h ba n
add_field h ba (u24 n) = add_u24 h ba n
add_field h ba (u30 n) = add_u30 h ba n
add_field h ba (d64 n) = add_d64 h ba n
add_field h ba (s24 z) = add_u24 h ba (pattern_24 z)
add_field h ba (text bs) = add_string h ba bs

abbrev text_field : Text → Option Field
text_field t = Option.map text t.buff

-- A field of the kind of the given one, whose value is not looked at.
unfoldable pub get_field : Field → ByteArray → Option Field × ByteArray
get_field (u8 n) ba = let (r, ba') = get_u8 ba in (Option.map u8 r, ba')
get_field (u16 n) ba = let (r, ba') = get_u16 ba in (Option.map u16 r, ba')
get_field (u24 n) ba = let (r, ba') = get_u24 ba in (Option.map u24 r, ba')
get_field (u30 n) ba = let (r, ba') = get_u30 ba in (Option.map u30 r, ba')
get_field (d64 n) ba = let (r, ba') = get_d64 ba in (Option.map d64 r, ba')
get_field (s24 z) ba = let (r, ba') = get_s24 ba in (Option.map s24 r, ba')
get_field (text bs) ba = let (r, ba') = get_string ba in (text_field r, ba')

unfoldable pub add_fields : Heap → ByteArray → List Field → ByteArray
add_fields h ba [] = ba
add_fields h ba (f ∷ fs) = add_fields h (add_field h ba f) fs

unfoldable pub get_fields : List Field → ByteArray → List (Option Field)
get_fields [] ba = []
get_fields (f ∷ fs) ba = let (r, ba') = get_field f ba in r ∷ get_fields fs ba'

abbrev pub wires : List Field → List ℕ
wires [] = []
wires (f ∷ fs) = wire f ++ wires fs

abbrev pub size : List Field → ℕ
size fs = length (wires fs)
