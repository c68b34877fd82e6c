-- ===== src/StreamLua/RoundTrip.antt =====
-- src/stream.c: values that Lua adds to a stream and gets back.
use luafan.Common.{
  ℕ, ◌/◌, ◌%◌, ◌^◌, ◌≤◌, ◌<◌, ◌≡◌, refl, ap, ◌∙◌, bit_and, true, false, Option, none, some, List,
  [], ◌∷◌, map, ltb, take, drop, take-take, All, arith, if_both, Option-cases, inl, inr,
}
use luafan.Common.Bits.{bit_and_mask}
use luafan.Common.Int.{ℤ, pos, negsuc}
use luafan.ByteArray.State.{Heap, ByteArray, is_null, bytes_of}
use luafan.ByteArray.Write.{writebuffer}
use luafan.ByteArray.Append.{IsWriting}
use luafan.ByteArray.Contents.{written}
use luafan.ByteArray.Mode.{read_available}
use luafan.Stream.Add.{add_u24, prepare_get}
use luafan.Stream.Get.{
  Text, take_text, get_string, get_u8, get_u16, get_u24, get_u30, get_d64, get_s24,
}
use luafan.Stream.Fixed.{IsS24, pattern_24}
use luafan.Stream.Message.{Field, IsField, add_field, get_field, add_fields, get_fields, size}
use luafan.Stream.RoundTrip.{get_fields-add_fields}
use mathlib.Core.Option
use luafan.StreamLua.Calls.{
  integer, number, string, to_unsigned, push_unsigned, push_signed, push_number, push_text,
  lua_add_u8, lua_add_u16, lua_add_u24, lua_add_u30, lua_add_d64, lua_add_string, lua_get_u8,
  lua_get_u16, lua_get_u24, lua_get_u30, lua_get_d64, lua_get_s24, lua_get_string,
}
use luafan.StreamLua.Message.{
  lua_u8, lua_u16, lua_u24, lua_u30, lua_s24, lua_d64, lua_text, LuaField, IsLuaField, to_field,
  value_of, lua_add, lua_get, lua_adds, lua_gets,
}

to_unsigned-lt : (w : ℕ) (z : ℤ) → 0 < 2 ^ w → to_unsigned w z < 2 ^ w
unfolding to_unsigned
to_unsigned-lt w (pos n) p = omega arith
to_unsigned-lt w (negsuc n) p = omega arith

to_field-IsField : (f : LuaField) → IsLuaField f → IsField (to_field f)
to_field-IsField (lua_u8 z) ok = to_unsigned-lt 8 z (omega arith)
to_field-IsField (lua_u16 z) ok = to_unsigned-lt 16 z (omega arith)
to_field-IsField (lua_u24 z) ok = omega arith
to_field-IsField (lua_u30 z) ok = to_unsigned-lt 32 z (omega arith)
to_field-IsField (lua_s24 z) ok = ok
to_field-IsField (lua_d64 n) ok = ok
to_field-IsField (lua_text bs) ok = ok

-- The three bytes hold the low 24 bits.
add_u24-low :
    (h : Heap) (ba : ByteArray) (u v : ℕ)
    → u % 2 ^ 24 ≡ v % 2 ^ 24
    → add_u24 h ba u ≡ add_u24 h ba v
unfolding add_u24
add_u24-low h ba u v e =
    let low : bit_and u 255 ≡ bit_and v 255 = omega (arith, bit_and_mask 8 u, bit_and_mask 8 v) in
    let middle : bit_and (u / 2 ^ 8) 255 ≡ bit_and (v / 2 ^ 8) 255 =
      omega (arith, bit_and_mask 8 (u / 2 ^ 8), bit_and_mask 8 (v / 2 ^ 8)) in
    let high : bit_and (u / 2 ^ 16) 255 ≡ bit_and (v / 2 ^ 16) 255 =
      omega (arith, bit_and_mask 8 (u / 2 ^ 16), bit_and_mask 8 (v / 2 ^ 16)) in
    let same : bit_and u 255 ∷ bit_and (u / 2 ^ 8) 255 ∷ bit_and (u / 2 ^ 16) 255 ∷ []
        ≡ bit_and v 255 ∷ bit_and (v / 2 ^ 8) 255 ∷ bit_and (v / 2 ^ 16) 255 ∷ [] =
      rw (low, middle, high) refl in
    ap (λ bs. (writebuffer h ba bs).1) same

pattern_24-low : (z : ℤ) → IsS24 z → to_unsigned 32 z % 2 ^ 24 ≡ pattern_24 z % 2 ^ 24
unfolding to_unsigned
pattern_24-low (pos n) ok = omega arith
pattern_24-low (negsuc n) ok = omega arith

lua_add-add_field :
    (h : Heap) (ba : ByteArray) (f : LuaField)
    → IsLuaField f
    → lua_add h ba f ≡ add_field h ba (to_field f)
unfolding lua_add add_field lua_add_u8 lua_add_u16 lua_add_u24 lua_add_u30 lua_add_d64
    lua_add_string
lua_add-add_field h ba (lua_u8 z) ok = refl
lua_add-add_field h ba (lua_u16 z) ok = refl
lua_add-add_field h ba (lua_u24 z) ok = add_u24-low h ba _ _ (omega arith)
lua_add-add_field h ba (lua_u30 z) ok = refl
lua_add-add_field h ba (lua_s24 z) ok = add_u24-low h ba _ _ (pattern_24-low z ok)
lua_add-add_field h ba (lua_d64 n) ok = refl
lua_add-add_field h ba (lua_text bs) ok = refl

lua_adds-add_fields :
    (h : Heap) (fs : List LuaField) (ba : ByteArray)
    → All IsLuaField fs
    → lua_adds h ba fs ≡ add_fields h ba (map to_field fs)
unfolding lua_adds add_fields
lua_adds-add_fields h [] ba ok = refl
lua_adds-add_fields h (f ∷ fs) ba ok =
    ap (λ x. lua_adds h x fs) (lua_add-add_field h ba f ok.0)
    ∙ lua_adds-add_fields h fs (add_field h ba (to_field f)) ok.1

-- A text that is there is as long as its count says.
IsFull : Text → Type 0
IsFull t = (bs : List ℕ) → t.buff ≡ some bs → take t.buflen bs ≡ bs

take_text-IsFull : (ba : ByteArray) (x : Option ℕ × ByteArray) → IsFull (take_text ba x).0
unfolding IsFull
take_text-IsFull ba (none, ba') = λ bs q. absurd (impossible q)
  where
    impossible : {b : List ℕ} → none ≡ some b → ⊥
    impossible p = cc
take_text-IsFull ba (some len, ba') =
    let P : Text × ByteArray → Type 0 = λ x. IsFull x.0 in
    if_both P (ltb (read_available ba') len) (λ bs q. absurd (impossible q))
      (λ bs q.
        let e : take len (drop ba'.offset (bytes_of ba'.buffer)) ≡ bs = cc in
        rw⁻¹ e (take-take len len (drop ba'.offset (bytes_of ba'.buffer)) (omega arith)))
  where
    impossible : {b : List ℕ} → none ≡ some b → ⊥
    impossible p = cc

-- What is pushed where a field was got.
module _ (c : ℕ → Field) (inj : (m n : ℕ) → some (c m) ≡ some (c n) → m ≡ n) where
  impossible : {n : ℕ} → none ≡ some (c n) → ⊥
  impossible p = cc

  push_unsigned_lem :
      (x : Option ℕ × ByteArray) (n : ℕ)
      → Option.map c x.0 ≡ some (c n)
      → push_unsigned x ≡ (integer (pos n) ∷ [], x.1)
  push_unsigned_lem (none, ba) n q = absurd (impossible q)
  push_unsigned_lem (some m, ba) n q = ap (λ k. (integer (pos k) ∷ [], ba)) (inj m n q)

  push_number_lem :
      (x : Option ℕ × ByteArray) (n : ℕ)
      → Option.map c x.0 ≡ some (c n)
      → push_number x ≡ (number n ∷ [], x.1)
  push_number_lem (none, ba) n q = absurd (impossible q)
  push_number_lem (some m, ba) n q = ap (λ k. (number k ∷ [], ba)) (inj m n q)

push_signed_lem :
    (x : Option ℤ × ByteArray) (z : ℤ)
    → Option.map Field.s24 x.0 ≡ some (Field.s24 z)
    → push_signed x ≡ (integer z ∷ [], x.1)
push_signed_lem (none, ba) z q = absurd (nothing q)
  where
    nothing : none ≡ some (Field.s24 z) → ⊥
    nothing p = cc
push_signed_lem (some y, ba) z q = let same : y ≡ z = cc in ap (λ k. (integer k ∷ [], ba)) same

push_text_lem :
    (t : Text) (bs : List ℕ)
    → IsFull t
    → Option.map Field.text t.buff ≡ some (Field.text bs)
    → push_text t.buff t.buflen ≡ string bs ∷ []
unfolding IsFull
push_text_lem t bs full q = elim (Option-cases t.buff) [
  | inl gone ↦ absurd (nothing (rw gone at q))
  | inr (b, there) ↦
      let known = rw there at q in
      let same : b ≡ bs = cc in
      ap (λ o. push_text o t.buflen) there ∙ ap (λ x. string x ∷ []) (full b there ∙ same)
]
  where
    nothing : none ≡ some (Field.text bs) → ⊥
    nothing p = cc

lua_get-get_field :
    (f : LuaField) (ba : ByteArray)
    → (get_field (to_field f) ba).0 ≡ some (to_field f)
    → lua_get f ba ≡ (value_of f ∷ [], (get_field (to_field f) ba).1)
unfolding lua_get get_field lua_get_u8 lua_get_u16 lua_get_u24 lua_get_u30 lua_get_s24 lua_get_d64
    lua_get_string get_string
lua_get-get_field (lua_u8 z) ba q = push_unsigned_lem Field.u8 (λ m n p. cc) (get_u8 ba) _ q
lua_get-get_field (lua_u16 z) ba q = push_unsigned_lem Field.u16 (λ m n p. cc) (get_u16 ba) _ q
lua_get-get_field (lua_u24 z) ba q = push_unsigned_lem Field.u24 (λ m n p. cc) (get_u24 ba) _ q
lua_get-get_field (lua_u30 z) ba q = push_unsigned_lem Field.u30 (λ m n p. cc) (get_u30 ba) _ q
lua_get-get_field (lua_s24 z) ba q = push_signed_lem (get_s24 ba) z q
lua_get-get_field (lua_d64 n) ba q = push_number_lem Field.d64 (λ m k p. cc) (get_d64 ba) n q
lua_get-get_field (lua_text bs) ba q =
    ap (λ x. (x, (get_string ba).1))
      (push_text_lem (get_string ba).0 bs (take_text-IsFull ba (get_u30 ba)) q)

lua_gets-get_fields :
    (fs : List LuaField) (ba : ByteArray)
    → get_fields (map to_field fs) ba ≡ map some (map to_field fs)
    → lua_gets fs ba ≡ map (λ f. value_of f ∷ []) fs
unfolding lua_gets get_fields
lua_gets-get_fields [] ba q = refl
lua_gets-get_fields (f ∷ fs) ba q =
    let r = get_field (to_field f) ba in
    let first : r.0 ≡ some (to_field f) = cc in
    let others : get_fields (map to_field fs) r.1 ≡ map some (map to_field fs) = cc in
    rw (lua_get-get_field f ba first)
      (ap (◌∷◌ (value_of f ∷ [])) (lua_gets-get_fields fs r.1 others))

-- Values that Lua adds to an empty stream, of at most 2 ^ 61 bytes on a heap that grants what is
-- asked, come back one by one after prepare_get: integers of an unsigned field cut to its low bits,
-- doubles, signed numbers of 24 bits and strings below 2 ^ 32 bytes as they are.
pub lua_gets-lua_adds :
    (h : Heap)
    → ((n : ℕ) → h.grants n ≡ true)
    → (fs : List LuaField) (ba : ByteArray) → All IsLuaField fs
    → IsWriting ba
    → is_null ba.buffer ≡ false
    → written ba ≡ []
    → size (map to_field fs) ≤ 2 ^ 61
    → lua_gets fs (prepare_get (lua_adds h ba fs)).1 ≡ map (λ f. value_of f ∷ []) fs
lua_gets-lua_adds h grants fs ba ok w n e fits =
    lua_gets-get_fields fs (prepare_get (lua_adds h ba fs)).1 (
      ap (λ x. get_fields (map to_field fs) (prepare_get x).1) (lua_adds-add_fields h fs ba ok)
      ∙ get_fields-add_fields h grants (map to_field fs) ba (all_fields fs ok) w n e fits)
  where
    all_fields : (fs : List LuaField) → All IsLuaField fs → All IsField (map to_field fs)
    all_fields [] i = tt
    all_fields (f ∷ fs) i = (to_field-IsField f i.0, all_fields fs i.1)
