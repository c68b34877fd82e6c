-- ===== src/Json/Lua.antt =====
-- src/json.c: the Lua values that the encoder walks through, with tables behind references.
use luafan.Common.{ℕ, ◌+◌, Bool, true, false, ◌==◌, if◌then◌else◌, List, [], ◌∷◌, length, get_or}

-- A table is its address in the store; `lua_other` has the number of its type.
pub data LuaValue : Type 0 where
  lua_nil lua_null : LuaValue
  lua_boolean : Bool → LuaValue
  lua_number : ℕ → LuaValue
  lua_string : List ℕ → LuaValue
  lua_table : ℕ → LuaValue
  lua_other : ℕ → LuaValue

pub data Key : Type 0 where
  index : ℕ → Key
  other_number : ℕ → Key
  name : List ℕ → Key
  other_key : Key

pub data Meta : Type 0 where
  array_mt object_mt other_mt no_mt : Meta

-- The entries in the order of `lua_next`, and what `lua_rawlen` returns.
pub record Table : Type 0 where
  pub meta : Meta
  pub entries : List (Key × LuaValue)
  pub rawlen : ℕ

abbrev pub no_table : Table
no_table = record { meta = no_mt; entries = []; rawlen = 0 }

abbrev pub Store : Type 0
Store = List Table

abbrev pub table_at : Store → ℕ → Table
table_at store a = get_or store a no_table

abbrev pub is_lua_nil : LuaValue → Bool
is_lua_nil lua_nil = true
is_lua_nil _ = false

abbrev is_index : ℕ → Key → Bool
is_index i (index j) = i == j
is_index i _ = false

-- `lua_rawgeti`
unfoldable pub raw_geti : List (Key × LuaValue) → ℕ → LuaValue
raw_geti [] i = lua_nil
raw_geti ((k, v) ∷ es) i = if is_index i k then v else raw_geti es i

unfoldable pub mt_is_array : Meta → Bool
mt_is_array array_mt = true
mt_is_array _ = false

unfoldable pub mt_is_object : Meta → Bool
mt_is_object object_mt = true
mt_is_object _ = false

unfoldable pub table_is_empty : Table → Bool
table_is_empty t = length t.entries == 0

abbrev pub is_number_key : Key → Bool
is_number_key (index i) = true
is_number_key (other_number n) = true
is_number_key _ = false

-- how many keys from the first on are numbers
unfoldable pub number_prefix : List (Key × LuaValue) → ℕ
number_prefix [] = 0
number_prefix ((k, v) ∷ es) = if is_number_key k then 1 + number_prefix es else 0

unfoldable pub number_keys : List (Key × LuaValue) → Bool
number_keys [] = true
number_keys ((k, v) ∷ es) = if is_number_key k then number_keys es else false
