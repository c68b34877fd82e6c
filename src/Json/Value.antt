-- ===== src/Json/Value.antt =====
-- src/json.c: the Lua values that decode makes, the messages of its errors, and the outcome of a step.
use luafan.Common.{ℕ, Bool, true, false, Option, List, [], ◌∷◌, ◌==◌, ◌&&◌, if◌then◌else◌}

-- A number is the 64 bits of its double. An array has the values assigned at 1, 2 and so on, an
-- object its keys in the order of their first assignment.
mutual
  pub data Value : Type 0 where
    nil : Value
    null : Value
    boolean : Bool → Value
    number : ℕ → Value
    text : List ℕ → Value
    array : Items → Value
    object : Fields → Value

  pub data Items : Type 0 where
    no_items : Items
    item : Value → Items → Items

  pub data Fields : Type 0 where
    no_fields : Fields
    field : List ℕ → Value → Fields → Fields

pub data Message : Type 0 where
  expected_string control_character expected_closing_quote invalid_unicode_escape : Message
  invalid_codepoint expected_array_end expected_key expected_colon expected_object_end : Message
  trailing_garbage : Message
  invalid_escape : ℕ → Message
  invalid_number : Option (List ℕ) → Message
  invalid_literal : List ℕ → Message
  unexpected_character : Option ℕ → Message

-- `failed m at` is a raised error, `at` the text from its position on; `out_of_fuel` has no
-- counterpart in the code.
pub data Result {ℓ} (A : Type ℓ) : Type ℓ where
  ok : A → List ℕ → Result A
  failed : Message → List ℕ → Result A
  out_of_fuel : Result A

module _ {ℓ κ} {A : Type ℓ} {B : Type κ} where
  abbrev pub bind : Result A → (A → List ℕ → Result B) → Result B
  bind (ok a rest) f = f a rest
  bind (failed m at) f = failed m at
  bind out_of_fuel f = out_of_fuel

unfoldable pub same_text : List ℕ → List ℕ → Bool
same_text [] [] = true
same_text (x ∷ xs) (y ∷ ys) = (x == y) && same_text xs ys
same_text _ _ = false

-- `lua_rawset` with a value that is not nil
unfoldable pub put_field : List ℕ → Value → Fields → Fields
put_field k v no_fields = field k v no_fields
put_field k v (field j w fs) = if same_text j k then field j v fs else field j w (put_field k v fs)

unfoldable pub remove_field : List ℕ → Fields → Fields
remove_field k no_fields = no_fields
remove_field k (field j w fs) = if same_text j k then fs else field j w (remove_field k fs)

-- Assigning nil takes the key away.
unfoldable pub set_field : List ℕ → Value → Fields → Fields
set_field k nil fs = remove_field k fs
set_field k v fs = put_field k v fs
