-- ===== src/Json/Tests.antt =====
-- The JSON module at concrete inputs.
use luafan.Common.{zero, suc, ◌-◌, ℕ, ◌^◌, ◌<◌, ◌≡◌, refl, ap, some, List, [], ◌∷◌, length, arith}
use luafan.ByteArray.Grow.{malloc}
use luafan.ByteArray.Samples.{roomy}
use luafan.Json.Chars.{
  is_space, is_delim, is_hex, is_high_surrogate_hex, hex4, next_char, codepoint_to_utf8,
}
use luafan.Json.Value.{ok, number, text, array, no_items, item}
use luafan.Json.Text.{
  parse_string, string_loop, string_round, escape, unicode_escape, second_unit, add_codepoint,
  pair_value,
}
use luafan.Json.Decode.{
  value, json_decode, parse_value, decode_fuel, finish, kind, starts, parse_number, separator,
}
use luafan.Json.Print.{print, quoted}
use luafan.Json.Answers.{Answers, json_decode_total}
use luafan.Json.Strbuf.{Strbuf, contents, strbuf_init, strbuf_append}
use luafan.Json.Append.{IsValid, Appended, strbuf_append_lem}
use luafan.Json.Lua.{
  raw_geti, mt_is_array, mt_is_object, table_is_empty, number_keys, number_prefix, lua_table,
  no_table, table_at,
}
use luafan.Json.Encode.{
  written, raised, circular_reference, ambiguous_empty_table, json_encode, as_array, is_ambiguous,
}
use luafan.Json.Stack.{Ends, json_encode_total}
use luafan.Json.Encodes.{json_encode-print, json_decode-json_encode}
use luafan.Json.Utf8.{IsUtf8, codepoint_to_utf8_lem, pair_value-surrogates}
use luafan.Json.Print.{shown, spelled, control_text, hex_text}
use luafan.Json.Api.{json_array, json_object}
use luafan.Json.Empty.{WritesText, empty_table_rule}
use luafan.Json.Samples.{
  one_digit, digits_env, sample, sample_store, cyclic_store, sample-IsPlain, sample-Stands,
}

-- [1,]
trailing_comma :
    json_decode digits_env (text (91 ∷ 49 ∷ 44 ∷ 93 ∷ []))
    ≡ value (array (item (number 1) no_items))
unfolding json_decode parse_value decode_fuel next_char is_space kind starts parse_number is_delim
    separator finish
trailing_comma = refl

-- "\ud800A" with the second unit written \u0041
surrogate_and_letter :
    parse_string (34 ∷ 92 ∷ 117 ∷ 100 ∷ 56 ∷ 48 ∷ 48 ∷ 92 ∷ 117 ∷ 48 ∷ 48 ∷ 52 ∷ 49 ∷ 34 ∷ [])
    ≡ ok (226 ∷ 145 ∷ 129 ∷ []) []
unfolding parse_string string_loop string_round escape unicode_escape is_high_surrogate_hex is_hex
    second_unit add_codepoint codepoint_to_utf8 pair_value hex4
surrogate_and_letter = refl

-- U+1F600
pair_value-surrogates_example : pair_value 55357 56832 ≡ 128512
pair_value-surrogates_example = pair_value-surrogates 128512 (omega arith) (omega arith)

cyclic : json_encode roomy one_digit cyclic_store (lua_table 0) ≡ raised circular_reference
unfolding json_encode strbuf_init malloc as_array raw_geti is_ambiguous mt_is_array mt_is_object
    table_is_empty number_keys number_prefix strbuf_append
cyclic = refl

printed_sample :
    print one_digit sample
    ≡ 123 ∷ 34 ∷ 97 ∷ 34 ∷ 58 ∷ 91 ∷ 116 ∷ 114 ∷ 117 ∷ 101 ∷ 44 ∷ 34 ∷ 92 ∷ 110 ∷ 34 ∷ 44 ∷ 55 ∷ 93
      ∷ 44 ∷ 34 ∷ 98 ∷ 34 ∷ 58 ∷ 123 ∷ 125 ∷ 125 ∷ []
unfolding print quoted shown spelled control_text hex_text
printed_sample = refl

json_decode_total_example : Answers (91 ∷ 49 ∷ []) (json_decode digits_env (text (91 ∷ 49 ∷ [])))
json_decode_total_example = json_decode_total digits_env (91 ∷ 49 ∷ []) (omega arith)

cyclic_is_small : (a : ℕ) → length (table_at cyclic_store a).entries < 2147483647
cyclic_is_small zero = omega arith
cyclic_is_small (suc a) = omega arith

json_encode_total_example : Ends (json_encode roomy one_digit cyclic_store (lua_table 0))
json_encode_total_example =
    json_encode_total roomy one_digit cyclic_store (lua_table 0) cyclic_is_small

sample_fits : length (print one_digit sample) < 2 ^ 31 - 1
sample_fits = omega (arith, ap (length {A = ℕ}) printed_sample)

json_encode-print_example :
    (b : Strbuf) × (json_encode roomy one_digit sample_store (lua_table 0) ≡ written b)
    × (contents b ≡ print one_digit sample)
json_encode-print_example =
    json_encode-print roomy (λ _. refl) one_digit sample_store (lua_table 0) sample sample-Stands
      (omega (arith, sample_fits))

json_decode-json_encode_example :
    (b : Strbuf) × (json_encode roomy one_digit sample_store (lua_table 0) ≡ written b)
    × (json_decode digits_env (text (contents b)) ≡ value sample)
json_decode-json_encode_example =
    json_decode-json_encode roomy (λ _. refl) one_digit sample_store digits_env (lua_table 0) sample
      sample-Stands sample-IsPlain sample_fits

codepoint_to_utf8_lem_example : (bs : List ℕ) × (codepoint_to_utf8 8364 ≡ some bs) × IsUtf8 bs 8364
codepoint_to_utf8_lem_example = codepoint_to_utf8_lem 8364 (omega arith)

abbrev two_bytes : Strbuf
two_bytes = record { data_ = some (91 ∷ 49 ∷ 0 ∷ []); len = 2; cap = 3 }

two_bytes-IsValid : IsValid two_bytes
two_bytes-IsValid = record {
  block = 91 ∷ 49 ∷ 0 ∷ [];
  is_block = refl;
  length-block = refl;
  has_room = omega arith;
}

strbuf_append_lem_example : Appended two_bytes (44 ∷ []) (strbuf_append roomy two_bytes (44 ∷ []))
strbuf_append_lem_example =
    strbuf_append_lem roomy two_bytes (44 ∷ []) two_bytes-IsValid (omega arith)

empty_table_rule_example :
    (json_encode roomy one_digit (no_table ∷ []) (lua_table 0) ≡ raised ambiguous_empty_table)
    × WritesText roomy
        (λ _. refl)
        one_digit
        (json_array (no_table ∷ []) (lua_table 0))
        (91 ∷ 93 ∷ [])
    × WritesText roomy
        (λ _. refl)
        one_digit
        (json_object (no_table ∷ []) (lua_table 0))
        (123 ∷ 125 ∷ [])
empty_table_rule_example =
    empty_table_rule roomy (λ _. refl) one_digit (no_table ∷ []) 0 (omega arith) refl
