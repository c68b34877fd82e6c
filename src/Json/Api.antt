-- ===== src/Json/Api.antt =====
-- src/json.c: the functions of the module beside encode and decode.
use luafan.Common.{
  ℕ, zero, suc, Bool, true, false, Option, none, some, [], ◌∷◌, ◌++◌, ltb, length, if◌then◌else◌,
}
use luafan.Json.Value.{nil, null}
use luafan.Json.Decode.{Env}
use luafan.Json.Lua.{
  LuaValue, Table, Meta, Store, lua_nil, lua_null, lua_boolean, lua_string, lua_table, array_mt,
  object_mt,
}

-- `lua_setmetatable`
abbrev pub set_meta : Meta → Store → ℕ → Store
set_meta m [] a = []
set_meta m (t ∷ store) zero = record t { meta = m } ∷ store
set_meta m (t ∷ store) (suc a) = t ∷ set_meta m store a

abbrev new_table : Meta → Table
new_table m = record { meta = m; entries = []; rawlen = 0 }

-- none where `luaL_checktype` raises an error
unfoldable pub with_meta : Meta → Store → LuaValue → Option (Store × LuaValue)
with_meta m store lua_nil = some (store ++ (new_table m ∷ []), lua_table (length store))
with_meta m store (lua_table a) = some (set_meta m store a, lua_table a)
with_meta m store _ = none

unfoldable pub json_array : Store → LuaValue → Option (Store × LuaValue)
unfolding with_meta
json_array = with_meta array_mt

unfoldable pub json_object : Store → LuaValue → Option (Store × LuaValue)
unfolding with_meta
json_object = with_meta object_mt

abbrev to_boolean : LuaValue → Bool
to_boolean lua_nil = false
to_boolean (lua_boolean b) = b
to_boolean _ = true

unfoldable pub json_enable_null : LuaValue → Env → Env
json_enable_null enabled env = record env { null_value = if to_boolean enabled then null else nil }

unfoldable pub json_is_present : LuaValue → Bool
json_is_present lua_nil = false
json_is_present lua_null = false
json_is_present _ = true

unfoldable pub json_is_nonempty_string : LuaValue → Bool
json_is_nonempty_string (lua_string s) = ltb 0 (length s)
json_is_nonempty_string _ = false
