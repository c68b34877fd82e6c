-- ===== src/ObjectBuf/Pack.antt =====
-- src/objectbuf.c: the packer, which collects the values that an object is made of.
use luafan.Common.{
  ℕ, zero, suc, ◌+◌, ◌/◌, ◌%◌, ◌^◌, Bool, false, not, ◌||◌, ◌&&◌, List, [], ◌∷◌, ◌++◌, ltb, ◌==◌,
  if◌then◌else◌, length,
}
use luafan.ObjectBuf.Objects.{
  Object, no_object, boolean, whole, real, string, table, function, other, Entries, Tables,
  entries_at, contains,
}

-- The values of each kind in the order of their indices, which start at 1. A count is the length of
-- the list, and a value has an entry in an index table exactly if it is in the list.
pub record Ctx : Type 0 where
  pub tables : List Object
  pub numbers : List Object
  pub u30s : List Object
  pub strings : List Object
  pub funcs : List Object

unfoldable pub ctx_init : Ctx
ctx_init = record { tables = []; numbers = []; u30s = []; strings = []; funcs = [] }

-- `lua_rawset` raises an error on NaN as a key; `no_fuel` has no counterpart in the code.
pub data Packed : Type 0 where
  packed : Ctx → Packed
  index_is_nan : Packed
  no_fuel : Packed

abbrev pub then_pack : Packed → (Ctx → Packed) → Packed
then_pack (packed c) f = f c
then_pack index_is_nan f = index_is_nan
then_pack no_fuel f = no_fuel

-- 2 ^ 32
abbrev pub max_u30 : ℕ
max_u30 = 4294967296

-- no fraction, below MAX_U30, and not negative
unfoldable pub fits_u30 : Object → Bool
fits_u30 (whole n) = ltb n max_u30
fits_u30 _ = false

unfoldable pub is_nan : Object → Bool
is_nan (real n) = (n / 2 ^ 52 % 2 ^ 11 == 2047) && not (n % 2 ^ 52 == 0)
is_nan _ = false

abbrev pub add_new : Object → List Object → List Object
add_new v vs = vs ++ (v ∷ [])

-- numbers and small integers have one table of indices
unfoldable pub packer_number : Object → Ctx → Packed
packer_number v c =
    if contains v c.numbers || contains v c.u30s
    then packed c
    else if is_nan v
    then index_is_nan
    else if fits_u30 v
    then packed (record c { u30s = add_new v c.u30s })
    else packed (record c { numbers = add_new v c.numbers })

unfoldable pub packer_string : Object → Ctx → Packed
packer_string v c =
    if contains v c.strings then packed c else packed (record c { strings = add_new v c.strings })

unfoldable pub packer_function : Object → Ctx → Packed
packer_function v c =
    if contains v c.funcs then packed c else packed (record c { funcs = add_new v c.funcs })

-- the loop over a table, with the function that packs a value
unfoldable pub pack_entries : (Object → Ctx → Packed) → Entries → Ctx → Packed
pack_entries pack [] c = packed c
pack_entries pack ((k, v) ∷ es) c =
    then_pack (pack k c) λ c1. then_pack (pack v c1) (pack_entries pack es)

unfoldable pub packer_table : (Object → Ctx → Packed) → Tables → ℕ → Ctx → Packed
unfolding pack_entries
packer_table pack store a c =
    if contains (table a) c.tables
    then packed c
    else pack_entries pack (entries_at store a) (record c { tables = add_new (table a) c.tables })

-- A unit of fuel for each table on the way.
unfoldable pub packer : Tables → ℕ → Object → Ctx → Packed
unfolding packer_number packer_string packer_function packer_table
packer store f (whole n) c = packer_number (whole n) c
packer store f (real n) c = packer_number (real n) c
packer store f (string s) c = packer_string (string s) c
packer store f (function n) c = packer_function (function n) c
packer store f no_object c = packed c
packer store f (boolean b) c = packed c
packer store f (other n) c = packed c
packer store zero (table a) c = no_fuel
packer store (suc f) (table a) c = packer_table (packer store f) store a c

-- One table more than the store has.
unfoldable pub packer_fuel : Tables → ℕ
packer_fuel store = length store + 2

-- none for a call without an argument
unfoldable pub objectbuf_symbol : Tables → Object → Packed
unfolding packer ctx_init packer_fuel
objectbuf_symbol store v = packer store (packer_fuel store) v ctx_init
