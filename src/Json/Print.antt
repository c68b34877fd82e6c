-- ===== src/Json/Print.antt =====
-- src/json.c: the text that encode writes for a value that contains no cycle.
use luafan.Common.{ℕ, ◌+◌, ◌/◌, ◌%◌, ltb, ◌==◌, List, [], ◌∷◌, ◌++◌, if◌then◌else◌}
use luafan.Json.Value.{
  Value, Items, Fields, nil, null, boolean, number, text, array, object, no_items, item, no_fields,
  field,
}

-- a hexadecimal digit in lower case
unfoldable pub hex_text : ℕ → ℕ
hex_text d = if ltb d 10 then 48 + d else 87 + d

-- The spelling of a control character: five have a letter, the others are backslash, "u00" and two
-- hexadecimal digits.
unfoldable pub control_text : ℕ → List ℕ
unfolding hex_text
control_text c =
    if c == 8
    then 92 ∷ 98 ∷ []
    else if c == 12
    then 92 ∷ 102 ∷ []
    else if c == 10
    then 92 ∷ 110 ∷ []
    else if c == 13
    then 92 ∷ 114 ∷ []
    else if c == 9
    then 92 ∷ 116 ∷ []
    else 92 ∷ 117 ∷ 48 ∷ 48 ∷ hex_text (c / 16) ∷ hex_text (c % 16) ∷ []

-- The spelling of a byte in a string: a quote and a backslash have a backslash in front, control
-- characters are spelled out, and any other byte stands for itself.
unfoldable pub spelled : ℕ → List ℕ
unfolding control_text
spelled c =
    if ltb c 32
    then control_text c
    else if c == 34
    then 92 ∷ 34 ∷ []
    else if c == 92
    then 92 ∷ 92 ∷ []
    else c ∷ []

unfoldable pub escaped : List ℕ → List ℕ
unfolding spelled
escaped [] = []
escaped (c ∷ s) = spelled c ++ escaped s

-- a zero is written without a sign
unfoldable pub shown : ℕ → ℕ
shown n = if n == 9223372036854775808 then 0 else n

-- The bytes of JSON's grammar: `"` is 34, `,` 44, `:` 58, the brackets 91 and 93, the braces 123 and
-- 125.
abbrev null_word : List ℕ
null_word = 110 ∷ 117 ∷ 108 ∷ 108 ∷ []

abbrev true_word : List ℕ
true_word = 116 ∷ 114 ∷ 117 ∷ 101 ∷ []

abbrev false_word : List ℕ
false_word = 102 ∷ 97 ∷ 108 ∷ 115 ∷ 101 ∷ []

unfoldable pub quoted : List ℕ → List ℕ
unfolding escaped
quoted s = 34 ∷ (escaped s ++ (34 ∷ []))

-- `format` is `snprintf` with "%.14g", of the bits of a finite double.
module _ (format : ℕ → List ℕ) where
  unfoldable mutual
    pub print : Value → List ℕ
    print nil = null_word
    print null = null_word
    print (boolean b) = if b then true_word else false_word
    print (number n) = format (shown n)
    print (text s) = quoted s
    print (array xs) = 91 ∷ print_items xs
    print (object fs) = 123 ∷ print_fields fs

    pub print_items : Items → List ℕ
    print_items no_items = 93 ∷ []
    print_items (item v xs) = print v ++ print_more_items xs

    pub print_more_items : Items → List ℕ
    print_more_items no_items = 93 ∷ []
    print_more_items (item v xs) = 44 ∷ (print v ++ print_more_items xs)

    pub print_fields : Fields → List ℕ
    print_fields no_fields = 125 ∷ []
    print_fields (field k v fs) = quoted k ++ 58 ∷ (print v ++ print_more_fields fs)

    pub print_more_fields : Fields → List ℕ
    print_more_fields no_fields = 125 ∷ []
    print_more_fields (field k v fs) = 44 ∷ (quoted k ++ 58 ∷ (print v ++ print_more_fields fs))
