-- ===== src/Json/Fields.antt =====
-- src/json.c: the table that the assignments of parse_object make.
use luafan.Common.{
  ◌≡◌, refl, sym, ap, ◌∙◌, Bool, true, false, List, Bool-cases, inl, inr, if◌then◌else◌, ℕ,
}
use luafan.Json.Value.{
  Value, Fields, nil, null, boolean, number, text, array, object, no_fields, field, same_text,
  put_field, set_field,
}
use luafan.Json.Plain.{apart, distinct, is_nil}
use luafan.Json.Reads.{set_all}

-- No key of the table so far is the text.
lacks : List ℕ → Fields → Bool
lacks k no_fields = true
lacks k (field j v fs) = if same_text j k then false else lacks k fs

abbrev append_fields : Fields → Fields → Fields
append_fields no_fields fs = fs
append_fields (field k v acc) fs = field k v (append_fields acc fs)

-- Every key of the fields is new to the table.
abbrev NewIn : Fields → Fields → Type 0
NewIn acc no_fields = Unit
NewIn acc (field k v fs) = (lacks k acc ≡ true) × NewIn acc fs

abbrev pub NoneNil : Fields → Type 0
NoneNil no_fields = Unit
NoneNil (field k v fs) = (is_nil v ≡ false) × NoneNil fs

append_fields-no_fields : (acc : Fields) → append_fields acc no_fields ≡ acc
append_fields-no_fields no_fields = refl
append_fields-no_fields (field k v acc) = ap (field k v) (append_fields-no_fields acc)

append_fields_assoc :
    (acc : Fields) (k : List ℕ) (v : Value) (fs : Fields)
    → append_fields (append_fields acc (field k v no_fields)) fs ≡ append_fields acc (field k v fs)
append_fields_assoc no_fields k v fs = refl
append_fields_assoc (field j w acc) k v fs = ap (field j w) (append_fields_assoc acc k v fs)

put_field-lacks :
    (k : List ℕ) (v : Value) (acc : Fields)
    → lacks k acc ≡ true
    → put_field k v acc ≡ append_fields acc (field k v no_fields)
unfolding put_field lacks
put_field-lacks k v no_fields h = refl
put_field-lacks k v (field j w acc) h = elim (Bool-cases (same_text j k)) [
  | inl e ↦ absurd (impossible (rw e at h))
  | inr e ↦ rw e (ap (field j w) (put_field-lacks k v acc (rw e at h)))
]
  where
    impossible : false ≡ true → ⊥
    impossible q = cc

set_field-put_field :
    (k : List ℕ) (v : Value) (fs : Fields) → is_nil v ≡ false → set_field k v fs ≡ put_field k v fs
unfolding set_field
set_field-put_field k nil fs h = cc
set_field-put_field k null fs h = refl
set_field-put_field k (boolean b) fs h = refl
set_field-put_field k (number n) fs h = refl
set_field-put_field k (text s) fs h = refl
set_field-put_field k (array xs) fs h = refl
set_field-put_field k (object gs) fs h = refl

lacks-append :
    (j k : List ℕ) (v : Value) (acc : Fields)
    → lacks j acc ≡ true
    → same_text k j ≡ false
    → lacks j (append_fields acc (field k v no_fields)) ≡ true
unfolding lacks
lacks-append j k v no_fields h g = rw g refl
lacks-append j k v (field i w acc) h g = elim (Bool-cases (same_text i j)) [
  | inl e ↦ absurd (impossible (rw e at h))
  | inr e ↦ rw e (lacks-append j k v acc (rw e at h) g)
]
  where
    impossible : false ≡ true → ⊥
    impossible q = cc

NewIn-append :
    (acc : Fields) (k : List ℕ) (v : Value) (fs : Fields)
    → NewIn acc fs
    → apart k fs ≡ true
    → NewIn (append_fields acc (field k v no_fields)) fs
unfolding apart
NewIn-append acc k v no_fields h g = tt
NewIn-append acc k v (field j w fs) h g = elim (Bool-cases (same_text k j)) [
  | inl e ↦ absurd (impossible (rw e at g))
  | inr e ↦ (lacks-append j k v acc h.0 e, NewIn-append acc k v fs h.1 (rw e at g))
]
  where
    impossible : false ≡ true → ⊥
    impossible q = cc

set_all-NewIn :
    (acc fs : Fields)
    → NewIn acc fs
    → distinct fs ≡ true
    → NoneNil fs
    → set_all acc fs ≡ append_fields acc fs
unfolding distinct
set_all-NewIn acc no_fields h d n = sym (append_fields-no_fields acc)
set_all-NewIn acc (field k v fs) h d n = elim (Bool-cases (apart k fs)) [
  | inl e ↦
      let put = set_field-put_field k v acc n.0 ∙ put_field-lacks k v acc h.0 in
      let more =
        set_all-NewIn (append_fields acc (field k v no_fields)) fs (NewIn-append acc k v fs h.1 e)
          (rw e at d) n.1 in
      rw put more ∙ append_fields_assoc acc k v fs
  | inr e ↦ absurd (impossible (rw e at d))
]
  where
    impossible : false ≡ true → ⊥
    impossible q = cc

NewIn-empty : (fs : Fields) → NewIn no_fields fs
unfolding lacks
NewIn-empty no_fields = tt
NewIn-empty (field k v fs) = (refl, NewIn-empty fs)

-- Assigning the fields to an empty table one by one gives them, where the keys differ and no value
-- is nil.
pub set_all-empty : (fs : Fields) → distinct fs ≡ true → NoneNil fs → set_all no_fields fs ≡ fs
set_all-empty fs d n = set_all-NewIn no_fields fs (NewIn-empty fs) d n
