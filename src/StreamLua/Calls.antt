-- ===== src/StreamLua/Calls.antt =====
-- src/stream.c: the Lua functions of a stream. The type check of the stream and of the arguments is
-- Lua's; an argument is what it gives.
use luafan.Common.{
  ℕ, ◌-◌, ◌%◌, ◌^◌, Bool, true, false, ◌&&◌, not, Option, none, some, List, [], ◌∷◌, ltb, ◌==◌,
  if◌then◌else◌, take,
}
use luafan.Common.Int.{ℤ, pos, negsuc}
use luafan.ByteArray.State.{Heap, ByteArray, bytes_of, is_null}
use luafan.Stream.Add.{
  stream_new, gc, add_u8, add_u16, add_u24, add_u30, add_d64, add_string, add_bytes, stream_package,
  prepare_get, prepare_add, stream_empty,
}
use luafan.Stream.Get.{
  available, get_u8, get_u16, get_u32, get_u30, get_s24, get_u24, get_d64, stream_mark,
  stream_reset, Text, get_string, get_bytes, test_bytes,
}

-- What is pushed; a number is its bit pattern.
pub data LuaValue : Type 0 where
  nil : LuaValue
  boolean : Bool → LuaValue
  integer : ℤ → LuaValue
  number : ℕ → LuaValue
  string : List ℕ → LuaValue

-- A lua_Integer converted to an unsigned type of `w` bits.
unfoldable pub to_unsigned : ℕ → ℤ → ℕ
to_unsigned w (pos n) = n % 2 ^ w
to_unsigned w (negsuc n) = 2 ^ w - 1 - n % 2 ^ w

-- `if (…) { lua_pushinteger(L, result); return 1; } else { return 0; }`
abbrev pub push_unsigned : Option ℕ × ByteArray → List LuaValue × ByteArray
push_unsigned (none, ba) = ([], ba)
push_unsigned (some n, ba) = (integer (pos n) ∷ [], ba)

abbrev pub push_signed : Option ℤ × ByteArray → List LuaValue × ByteArray
push_signed (none, ba) = ([], ba)
push_signed (some z, ba) = (integer z ∷ [], ba)

abbrev pub push_number : Option ℕ × ByteArray → List LuaValue × ByteArray
push_number (none, ba) = ([], ba)
push_number (some n, ba) = (number n ∷ [], ba)

-- `if (…) { lua_pushboolean(L, true); return 1; } else { return 0; }`
abbrev pub push_true : Bool × ByteArray → List LuaValue × ByteArray
push_true (false, ba) = ([], ba)
push_true (true, ba) = (boolean true ∷ [], ba)

abbrev pub push_boolean : Bool × ByteArray → List LuaValue × ByteArray
push_boolean (b, ba) = (boolean b ∷ [], ba)

-- A text, or nil and the count of bytes.
abbrev pub push_text : Option (List ℕ) → ℕ → List LuaValue
push_text none buflen = nil ∷ integer (pos buflen) ∷ []
push_text (some buff) buflen = string (take buflen buff) ∷ []

-- The bytes, if there are any.
abbrev pub push_bytes : Text → List LuaValue
push_bytes text =
    if not (is_null text.buff) && ltb 0 text.buflen
    then string (take text.buflen (bytes_of text.buff)) ∷ []
    else []

-- `luaL_optinteger(L, 2, -1)` as a size_t
abbrev pub opt_size : Option ℤ → ℕ
opt_size none = 2 ^ 64 - 1
opt_size (some z) = to_unsigned 64 z

module _ (h : Heap) where
  unfoldable pub lua_new : ByteArray → Option (List ℕ) → ByteArray
  lua_new ba text = stream_new h ba text

  unfoldable pub lua_add_u8 : ByteArray → ℤ → ByteArray
  lua_add_u8 ba value = add_u8 h ba (to_unsigned 8 value)

  unfoldable pub lua_add_u16 : ByteArray → ℤ → ByteArray
  lua_add_u16 ba value = add_u16 h ba (to_unsigned 16 value)

  unfoldable pub lua_add_u30 : ByteArray → ℤ → ByteArray
  lua_add_u30 ba value = add_u30 h ba (to_unsigned 32 value)

  unfoldable pub lua_add_u24 : ByteArray → ℤ → ByteArray
  lua_add_u24 ba value = add_u24 h ba (to_unsigned 32 value)

  unfoldable pub lua_add_d64 : ByteArray → ℕ → ByteArray
  lua_add_d64 ba value = add_d64 h ba value

  unfoldable pub lua_add_string : ByteArray → List ℕ → ByteArray
  lua_add_string ba text = add_string h ba text

  unfoldable pub lua_add_bytes : ByteArray → List ℕ → ByteArray
  lua_add_bytes ba text = add_bytes h ba text

unfoldable pub lua_gc : ByteArray → ByteArray
lua_gc ba = gc ba

unfoldable pub lua_available : ByteArray → List LuaValue
lua_available ba = integer (pos (available ba)) ∷ []

unfoldable pub lua_get_u8 : ByteArray → List LuaValue × ByteArray
lua_get_u8 ba = push_unsigned (get_u8 ba)

unfoldable pub lua_get_u16 : ByteArray → List LuaValue × ByteArray
lua_get_u16 ba = push_unsigned (get_u16 ba)

unfoldable pub lua_get_u32 : ByteArray → List LuaValue × ByteArray
lua_get_u32 ba = push_unsigned (get_u32 ba)

unfoldable pub lua_get_u30 : ByteArray → List LuaValue × ByteArray
lua_get_u30 ba = push_unsigned (get_u30 ba)

unfoldable pub lua_get_s24 : ByteArray → List LuaValue × ByteArray
lua_get_s24 ba = push_signed (get_s24 ba)

unfoldable pub lua_get_u24 : ByteArray → List LuaValue × ByteArray
lua_get_u24 ba = push_unsigned (get_u24 ba)

unfoldable pub lua_get_d64 : ByteArray → List LuaValue × ByteArray
lua_get_d64 ba = push_number (get_d64 ba)

unfoldable pub lua_get_string : ByteArray → List LuaValue × ByteArray
lua_get_string ba = let (text, ba') = get_string ba in (push_text text.buff text.buflen, ba')

unfoldable pub lua_mark : ByteArray → List LuaValue × ByteArray
lua_mark ba = push_true (stream_mark ba)

unfoldable pub lua_reset : ByteArray → List LuaValue × ByteArray
lua_reset ba = push_true (stream_reset ba)

unfoldable pub lua_test_bytes : ByteArray → Option ℤ → List LuaValue × ByteArray
lua_test_bytes ba size =
    if opt_size size == 0 then ([], ba) else (push_bytes (test_bytes ba (opt_size size)), ba)

unfoldable pub lua_get_bytes : ByteArray → Option ℤ → List LuaValue × ByteArray
lua_get_bytes ba size =
    let (text, ba') = get_bytes ba (opt_size size) in
    if opt_size size == 0 then ([], ba) else (push_bytes text, ba')

unfoldable pub lua_package : ByteArray → List LuaValue × ByteArray
lua_package ba =
    let (buff, buflen, ba') = stream_package ba in (string (take buflen (bytes_of buff)) ∷ [], ba')

unfoldable pub lua_prepare_get : ByteArray → List LuaValue × ByteArray
lua_prepare_get ba = push_boolean (prepare_get ba)

unfoldable pub lua_prepare_add : ByteArray → List LuaValue × ByteArray
lua_prepare_add ba = push_boolean (prepare_add ba)

unfoldable pub lua_empty : ByteArray → List LuaValue × ByteArray
lua_empty ba = push_boolean (stream_empty ba)
