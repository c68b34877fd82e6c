-- ===== src/StreamLua/Message.antt =====
-- src/stream.c: a sequence of values with the functions that Lua adds and gets them by.
use luafan.Common.{ℕ, ◌%◌, ◌^◌, ◌<◌, List, [], ◌∷◌, length}
use luafan.Common.Int.{ℤ, pos}
use luafan.ByteArray.State.{Heap, ByteArray}
use luafan.Stream.Fixed.{IsS24}
use luafan.Stream.Message.{Field}
use luafan.StreamLua.Calls.{
  LuaValue, integer, number, string, to_unsigned, lua_add_u8, lua_add_u16, lua_add_u24, lua_add_u30,
  lua_add_d64, lua_add_string, lua_get_u8, lua_get_u16, lua_get_u24, lua_get_u30, lua_get_d64,
  lua_get_s24, lua_get_string,
}

-- A value with the pair of functions that it goes through.
pub data LuaField : Type 0 where
  lua_u8 lua_u16 lua_u24 lua_u30 lua_s24 : ℤ → LuaField
  lua_d64 : ℕ → LuaField
  lua_text : List ℕ → LuaField

-- A double's pattern, a signed number of 24 bits and the length of a string; an unsigned field takes
-- any integer.
abbrev pub IsLuaField : LuaField → Type 0
IsLuaField (lua_d64 n) = n < 2 ^ 64
IsLuaField (lua_s24 z) = IsS24 z
IsLuaField (lua_text bs) = length bs < 2 ^ 32
IsLuaField _ = Unit

-- The field on the wire.
abbrev pub to_field : LuaField → Field
to_field (lua_u8 z) = Field.u8 (to_unsigned 8 z)
to_field (lua_u16 z) = Field.u16 (to_unsigned 16 z)
to_field (lua_u24 z) = Field.u24 (to_unsigned 32 z % 2 ^ 24)
to_field (lua_u30 z) = Field.u30 (to_unsigned 32 z)
to_field (lua_s24 z) = Field.s24 z
to_field (lua_d64 n) = Field.d64 n
to_field (lua_text bs) = Field.text bs

-- What Lua gets back: an unsigned field keeps the low bits.
abbrev pub value_of : LuaField → LuaValue
value_of (lua_u8 z) = integer (pos (to_unsigned 8 z))
value_of (lua_u16 z) = integer (pos (to_unsigned 16 z))
value_of (lua_u24 z) = integer (pos (to_unsigned 32 z % 2 ^ 24))
value_of (lua_u30 z) = integer (pos (to_unsigned 32 z))
value_of (lua_s24 z) = integer z
value_of (lua_d64 n) = number n
value_of (lua_text bs) = string bs

unfoldable pub lua_add : Heap → ByteArray → LuaField → ByteArray
lua_add h ba (lua_u8 z) = lua_add_u8 h ba z
lua_add h ba (lua_u16 z) = lua_add_u16 h ba z
lua_add h ba (lua_u24 z) = lua_add_u24 h ba z
lua_add h ba (lua_u30 z) = lua_add_u30 h ba z
lua_add h ba (lua_s24 z) = lua_add_u24 h ba z
lua_add h ba (lua_d64 n) = lua_add_d64 h ba n
lua_add h ba (lua_text bs) = lua_add_string h ba bs

unfoldable pub lua_get : LuaField → ByteArray → List LuaValue × ByteArray
lua_get (lua_u8 z) ba = lua_get_u8 ba
lua_get (lua_u16 z) ba = lua_get_u16 ba
lua_get (lua_u24 z) ba = lua_get_u24 ba
lua_get (lua_u30 z) ba = lua_get_u30 ba
lua_get (lua_s24 z) ba = lua_get_s24 ba
lua_get (lua_d64 n) ba = lua_get_d64 ba
lua_get (lua_text bs) ba = lua_get_string ba

unfoldable pub lua_adds : Heap → ByteArray → List LuaField → ByteArray
lua_adds h ba [] = ba
lua_adds h ba (f ∷ fs) = lua_adds h (lua_add h ba f) fs

unfoldable pub lua_gets : List LuaField → ByteArray → List (List LuaValue)
lua_gets [] ba = []
lua_gets (f ∷ fs) ba = let (r, ba') = lua_get f ba in r ∷ lua_gets fs ba'
