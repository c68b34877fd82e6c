-- ===== src/Json/Loops.antt =====
-- src/json.c: the loops of encode_table, and the tables that stand for a value.
use luafan.Common.{
  ℕ, ◌<◌, ◌≡◌, refl, sym, ap, ◌∙◌, Bool, true, false, List, [], ◌∷◌, ◌++◌, if◌then◌else◌, length,
  ltb, arith,
}
use native.Mathlib.Decide.{dec_lt}
use luafan.ByteArray.State.{Heap}
use luafan.Json.Chars.{comma, colon, close_bracket, close_brace}
use luafan.Json.Value.{Value}
use luafan.Json.Decode.{positive_zero}
use luafan.Json.Print.{print, quoted}
use luafan.Json.Strbuf.{Strbuf}
use luafan.Json.Lua.{
  LuaValue, Key, Store, name, table_at, raw_geti, mt_is_array, mt_is_object, table_is_empty,
}
use luafan.Json.Encode.{
  Encoded, written, raised, overflow, no_fuel, then_write, Stack, write, encode_string,
  encode_number, is_finite, as_array, is_ambiguous, encode_items, encode_entries, encode_value,
}
use luafan.Common.Count.{free}
use luafan.Json.Stack.{table_at-past}
use luafan.Json.Stands.{
  Stands, Writes, Writes-nothing, Writes-then, write-Writes, encode_string-Writes,
}

pub then_write_assoc :
    (e : Encoded) (f g : Strbuf → Encoded)
    → then_write (then_write e f) g ≡ then_write e (λ b. then_write (f b) g)
then_write_assoc (written b) f g = refl
then_write_assoc (raised e) f g = refl
then_write_assoc overflow f g = refl
then_write_assoc no_fuel f g = refl

pub Writes-same :
    (p q : Strbuf → Encoded) (t : List ℕ) → ((b : Strbuf) → q b ≡ p b) → Writes p t → Writes q t
Writes-same p q t same h b v small = let w = h b v small in (w.0, same b ∙ w.1, w.2, w.3)

module _ (h : Heap) (grants : (n : ℕ) → h.grants n ≡ true) (format : ℕ → List ℕ)
    (store : Store) where
  -- What a call of encode_value writes, on fuel that is enough.
  abbrev pub EncodesValue : Value → Type 0
  EncodesValue x =
      (f : ℕ) (stack : Stack) (v : LuaValue)
      → Stands format store stack v x
      → free stack (length store) < f
      → Writes (encode_value h format store f stack v) (print format x)

  pub encode_number-Writes :
      (n : ℕ)
      → is_finite n ≡ true
      → length (format (positive_zero n)) < 64
      → Writes (encode_number h format n) (format (positive_zero n))
  unfolding encode_number
  encode_number-Writes n e g =
      let short : ltb (length (format (positive_zero n))) 64 ≡ true = ground arith in
      Writes-same (write h format (format (positive_zero n))) _ _ (λ b. rw (e, short) refl)
        (write-Writes h grants format (format (positive_zero n)))

  -- The loops with what is written behind them.
  module _ (encode : LuaValue → Strbuf → Encoded) where
    abbrev pub items_loop : Bool → List LuaValue → Strbuf → Encoded
    items_loop first vs b =
        then_write (encode_items h format encode first vs b) (write h format (close_bracket ∷ []))

    abbrev pub entries_loop : Bool → List (Key × LuaValue) → Strbuf → Encoded
    entries_loop first es b =
        then_write (encode_entries h format encode first es b) (write h format (close_brace ∷ []))

    abbrev separator_text : Bool → List ℕ
    separator_text first = if first then [] else comma ∷ []

    abbrev write_separator : Bool → Strbuf → Encoded
    write_separator first b = if first then written b else write h format (comma ∷ []) b

    separator-Writes : (first : Bool) → Writes (write_separator first) (separator_text first)
    separator-Writes true = Writes-nothing
    separator-Writes false = write-Writes h grants format (comma ∷ [])

    pub items_step :
        (first : Bool) (v : LuaValue) (vs : List LuaValue) (t s : List ℕ)
        → Writes (encode v) t
        → Writes (items_loop false vs) s
        → Writes (items_loop first (v ∷ vs)) (separator_text first ++ (t ++ s))
    unfolding encode_items
    items_step first v vs t s ht hs =
        Writes-same _ _ _ (λ b. then_write_assoc (write_separator first b) _ _)
          (Writes-then (write_separator first) _ (separator_text first) (t ++ s)
            (separator-Writes first)
            (Writes-same _ _ _ (λ b. then_write_assoc (encode v b) _ _)
              (Writes-then (encode v) (items_loop false vs) t s ht hs)))

    pub entries_step :
        (first : Bool) (k : List ℕ) (v : LuaValue) (es : List (Key × LuaValue)) (t s : List ℕ)
        → Writes (encode v) t
        → Writes (entries_loop false es) s
        → Writes
            (entries_loop first ((name k, v) ∷ es))
            (separator_text first ++ (quoted k ++ ((colon ∷ []) ++ (t ++ s))))
    unfolding encode_entries
    entries_step first k v es t s ht hs =
        Writes-same _ _ _ (λ b. then_write_assoc (write_separator first b) _ _)
          (Writes-then (write_separator first) _ (separator_text first) _ (separator-Writes first) (
            Writes-same _ _ _ (λ b. then_write_assoc (encode_string h format k b) _ _)
              (Writes-then (encode_string h format k) _ (quoted k) _
                (encode_string-Writes h grants format k)
                (Writes-same _ _ _ (λ b. then_write_assoc (write h format (colon ∷ []) b) _ _)
                  (Writes-then (write h format (colon ∷ [])) _ (colon ∷ []) (t ++ s)
                    (write-Writes h grants format (colon ∷ []))
                    (Writes-same _ _ _ (λ b. then_write_assoc (encode v b) _ _)
                      (Writes-then (encode v) (entries_loop false es) t s ht hs)))))))

  -- A table that stands for a value is in the store.
  pub array-in_store : (a : ℕ) → is_ambiguous (table_at store a) ≡ false → a < length store
  unfolding is_ambiguous mt_is_array mt_is_object table_is_empty
  array-in_store a e = elim (dec_lt a (length store)) [
    | yes below ↦ below
    | no above ↦
        let out = ap (λ t. is_ambiguous t) (table_at-past store a (omega arith)) in
        absurd (impossible (sym out ∙ e))
  ]
    where
      impossible : true ≡ false → ⊥
      impossible q = cc

  pub object-in_store : (a : ℕ) → as_array (table_at store a) ≡ false → a < length store
  unfolding as_array raw_geti mt_is_array mt_is_object table_is_empty
  object-in_store a e = elim (dec_lt a (length store)) [
    | yes below ↦ below
    | no above ↦
        let out = ap (λ t. as_array t) (table_at-past store a (omega arith)) in
        absurd (impossible (sym out ∙ e))
  ]
    where
      impossible : true ≡ false → ⊥
      impossible q = cc
