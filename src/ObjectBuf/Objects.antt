-- ===== src/ObjectBuf/Objects.antt =====
-- src/objectbuf.c: the Lua values that it packs, with tables behind addresses in a store.
use luafan.Common.{
  ℕ, Bool, true, false, not, Option, none, some, List, [], ◌∷◌, get_or, ◌==◌, if◌then◌else◌,
}

-- `whole n` is the number n, an integer or a double of that value; `real` has the bits of the double
-- of any other number. A function and a value of another type have a number for their identity.
pub data Object : Type 0 where
  no_object : Object
  boolean : Bool → Object
  whole : ℕ → Object
  real : ℕ → Object
  string : List ℕ → Object
  table : ℕ → Object
  function : ℕ → Object
  other : ℕ → Object

unfoldable pub same_bytes : List ℕ → List ℕ → Bool
same_bytes [] [] = true
same_bytes (x ∷ xs) (y ∷ ys) = if x == y then same_bytes xs ys else false
same_bytes _ _ = false

-- `lua_rawequal`
unfoldable pub same_object : Object → Object → Bool
unfolding same_bytes
same_object no_object no_object = true
same_object (boolean a) (boolean b) = if a then b else not b
same_object (whole a) (whole b) = a == b
same_object (real a) (real b) = a == b
same_object (string a) (string b) = same_bytes a b
same_object (table a) (table b) = a == b
same_object (function a) (function b) = a == b
same_object (other a) (other b) = a == b
same_object _ _ = false

-- The entries of a table in the order of `lua_next`.
abbrev pub Entries : Type 0
Entries = List (Object × Object)

abbrev pub Tables : Type 0
Tables = List Entries

abbrev pub entries_at : Tables → ℕ → Entries
entries_at store a = get_or store a []

unfoldable pub raw_get : Entries → Object → Object
unfolding same_object
raw_get [] k = no_object
raw_get ((j, v) ∷ es) k = if same_object j k then v else raw_get es k

-- A map from values to indices, as the tables `index_map` and `sym_map`.
abbrev pub IndexMap : Type 0
IndexMap = List (Object × ℕ)

unfoldable pub index_in : IndexMap → Object → Option ℕ
unfolding same_object
index_in [] k = none
index_in ((j, i) ∷ m) k = if same_object j k then some i else index_in m k

unfoldable pub contains : Object → List Object → Bool
unfolding same_object
contains v [] = false
contains v (w ∷ ws) = if same_object w v then true else contains v ws
