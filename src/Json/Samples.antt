-- ===== src/Json/Samples.antt =====
-- Concrete values and texts for the runs in Json/Tests.
use luafan.Common.{ℕ, ◌+◌, ◌-◌, arith, true, List, [], ◌∷◌, refl}
use luafan.Json.Chars.{is_space, is_delim}
use luafan.Json.Value.{
  Value, nil, boolean, number, text, array, object, no_items, item, no_fields, field, same_text,
}
use luafan.Json.Decode.{Env, positive_zero}
use luafan.Json.Plain.{IsExact, IsPlain, distinct, apart}
use luafan.Json.Lua.{
  Store, Table, lua_boolean, lua_number, lua_string, lua_table, index, name, no_mt, object_mt,
  no_table, raw_geti, mt_is_array, mt_is_object, table_is_empty, number_keys,
}
use luafan.Json.Encode.{as_array, is_ambiguous, is_finite, no_tables}
use luafan.Json.Stands.{Stands}

-- Texts of one digit, for the numbers whose bits are 0 to 9.
abbrev pub one_digit : ℕ → List ℕ
one_digit n = (48 + n) ∷ []

abbrev pub digit_value : List ℕ → ℕ × ℕ
digit_value [] = (0, 0)
digit_value (c ∷ rest) = (c - 48, 1)

abbrev pub digits_env : Env
digits_env = record { strtod = digit_value; null_value = nil }

-- {"a":[true,"\n",7],"b":{}}
abbrev pub sample : Value
sample = object (
    field (97 ∷ []) (array (item (boolean true) (item (text (10 ∷ [])) (item (number 7) no_items))))
      (field (98 ∷ []) (object no_fields) no_fields))

abbrev pub sample_store : Store
sample_store = outer ∷ inner ∷ record no_table { meta = object_mt } ∷ []
  where
    outer : Table
    outer = record {
      meta = no_mt;
      entries = (name (97 ∷ []), lua_table 1) ∷ (name (98 ∷ []), lua_table 2) ∷ [];
      rawlen = 0;
    }

    inner : Table
    inner = record {
      meta = no_mt;
      entries =
          (index 1, lua_boolean true)
          ∷ (index 2, lua_string (10 ∷ []))
          ∷ (index 3, lua_number 7)
          ∷ [];
      rawlen = 3;
    }

-- A table that holds itself.
abbrev pub cyclic_store : Store
cyclic_store = record { meta = no_mt; entries = (index 1, lua_table 0) ∷ []; rawlen = 1 } ∷ []

pub seven-IsExact : IsExact digit_value one_digit 7
unfolding is_delim is_space positive_zero
seven-IsExact = record {
  first = 55;
  others = [];
  is_text = refl;
  starts_number = refl;
  is_word = (refl, tt);
  is_short = omega arith;
  is_read = refl;
  is_positive_zero = refl;
}

pub sample-IsPlain : IsPlain digits_env one_digit sample
unfolding IsPlain distinct apart same_text
sample-IsPlain = (refl, (refl, (tt, (tt, (seven-IsExact, tt))), (refl, (refl, tt), tt)))

pub sample-Stands : Stands one_digit sample_store no_tables (lua_table 0) sample
unfolding Stands as_array is_ambiguous raw_geti mt_is_array mt_is_object table_is_empty number_keys
    is_finite positive_zero
sample-Stands = (
  0,
  refl,
  refl,
  refl,
  (
    _,
    _,
    refl,
    (
      1,
      refl,
      refl,
      refl,
      refl,
      refl,
      refl,
      omega arith,
      (_, _, refl, refl, (_, _, refl, refl, (_, _, refl, (refl, refl, omega arith), refl))),
    ),
    (_, _, refl, (2, refl, refl, refl, refl), refl),
  ),
)
