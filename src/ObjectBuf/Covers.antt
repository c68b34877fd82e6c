-- ===== src/ObjectBuf/Covers.antt =====
-- src/objectbuf.c: what the packer has collected covers the object that it was given.
use luafan.Common.{ℕ, ◌≡◌, refl, Bool, true, false, ◌||◌, ◌⊎◌, inl, inr, List, [], ◌∷◌, Bool-cases}
use luafan.ObjectBuf.Objects.{
  Object, no_object, boolean, whole, real, string, table, function, other, Entries, Tables,
  entries_at, contains,
}
use luafan.ObjectBuf.Pack.{
  Ctx, Packed, packed, index_is_nan, no_fuel, fits_u30, is_nan, add_new, packer_number,
  packer_string, packer_function,
}
use luafan.ObjectBuf.Same.{contains-added, contains-append}

-- The value has a place among what is collected, where its kind has one.
abbrev pub Covered : Object → Ctx → Type 0
Covered (table a) c = contains (table a) c.tables ≡ true
Covered (whole n) c = (contains (whole n) c.numbers || contains (whole n) c.u30s) ≡ true
Covered (real n) c = (contains (real n) c.numbers || contains (real n) c.u30s) ≡ true
Covered (string s) c = contains (string s) c.strings ≡ true
Covered (function n) c = contains (function n) c.funcs ≡ true
Covered _ c = Unit

abbrev pub EntriesCovered : Entries → Ctx → Type 0
EntriesCovered [] c = Unit
EntriesCovered ((k, v) ∷ es) c = Covered k c × Covered v c × EntriesCovered es c

abbrev pub Extends : Ctx → Ctx → Type 0
Extends c d = (v : Object) → Covered v c → Covered v d

-- The contents of each table that has come in are covered.
abbrev pub NewClosed : Tables → Ctx → Ctx → Type 0
NewClosed store c d =
    (a : ℕ) → Covered (table a) d → Covered (table a) c ⊎ EntriesCovered (entries_at store a) d

pub record Grows (store : Tables) (c d : Ctx) : Type 0 where
  pub extends : Extends c d
  pub closed : NewClosed store c d

pub EntriesCovered-Extends :
    (es : Entries) (c d : Ctx) → Extends c d → EntriesCovered es c → EntriesCovered es d
EntriesCovered-Extends [] c d e h = tt
EntriesCovered-Extends ((k, v) ∷ es) c d e h =
    (e k h.0, e v h.1, EntriesCovered-Extends es c d e h.2)

pub Grows-same : (store : Tables) (c : Ctx) → Grows store c c
Grows-same store c = record { extends = λ v h. h; closed = λ a h. inl h }

pub Grows-trans :
    (store : Tables) (b c d : Ctx) → Grows store b c → Grows store c d → Grows store b d
Grows-trans store b c d g k = record {
  extends = λ v h. k.extends v (g.extends v h);
  closed = λ a h. elim (k.closed a h) [
    | inl old ↦ elim (g.closed a old) [
      | inl older ↦ inl older
      | inr all ↦ inr (EntriesCovered-Extends (entries_at store a) c d k.extends all)
    ]
    | inr all ↦ inr all
  ];
}

-- A step ends, and where it does not meet NaN, the values that it collects cover `P`.
abbrev pub Collects : Tables → Ctx → (Ctx → Type 0) → Packed → Type 0
Collects store c P (packed d) = Grows store c d × P d
Collects store c P index_is_nan = Unit
Collects store c P no_fuel = ⊥

or_true_right : (a : Bool) → (a || true) ≡ true
or_true_right true = refl
or_true_right false = refl

-- What is in a list stays in it.
abbrev pub Kept : List Object → List Object → Type 0
Kept vs ws = (v : Object) → contains v vs ≡ true → contains v ws ≡ true

or-kept :
    (a b c d : Bool)
    → (a ≡ true → c ≡ true)
    → (b ≡ true → d ≡ true)
    → (a || b) ≡ true
    → (c || d) ≡ true
or-kept true b c d h k e = rw (h refl) refl
or-kept false b true d h k e = refl
or-kept false b false d h k e = k e

pub Extends-Kept :
    (c d : Ctx)
    → Kept c.tables d.tables
    → Kept c.numbers d.numbers
    → Kept c.u30s d.u30s
    → Kept c.strings d.strings
    → Kept c.funcs d.funcs
    → Extends c d
Extends-Kept c d t n u s f (table a) h = t (table a) h
Extends-Kept c d t n u s f (whole i) h = or-kept _ _ _ _ (n (whole i)) (u (whole i)) h
Extends-Kept c d t n u s f (real i) h = or-kept _ _ _ _ (n (real i)) (u (real i)) h
Extends-Kept c d t n u s f (string i) h = s (string i) h
Extends-Kept c d t n u s f (function i) h = f (function i) h
Extends-Kept c d t n u s f no_object h = tt
Extends-Kept c d t n u s f (boolean b) h = tt
Extends-Kept c d t n u s f (other i) h = tt

pub Kept-same : (vs : List Object) → Kept vs vs
Kept-same vs v h = h

pub Kept-added : (w : Object) (vs : List Object) → Kept vs (add_new w vs)
Kept-added w vs v h = contains-append v w vs h

module _ (store : Tables) (c : Ctx) where
  string-Grows : (v : Object) → Grows store c (record c { strings = add_new v c.strings })
  string-Grows v = record {
    extends =
        Extends-Kept c _ (Kept-same c.tables) (Kept-same c.numbers) (Kept-same c.u30s)
          (Kept-added v c.strings) (Kept-same c.funcs);
    closed = λ a h. inl h;
  }

  function-Grows : (v : Object) → Grows store c (record c { funcs = add_new v c.funcs })
  function-Grows v = record {
    extends =
        Extends-Kept c _ (Kept-same c.tables) (Kept-same c.numbers) (Kept-same c.u30s)
          (Kept-same c.strings) (Kept-added v c.funcs);
    closed = λ a h. inl h;
  }

  u30-Grows : (v : Object) → Grows store c (record c { u30s = add_new v c.u30s })
  u30-Grows v = record {
    extends =
        Extends-Kept c _ (Kept-same c.tables) (Kept-same c.numbers) (Kept-added v c.u30s)
          (Kept-same c.strings) (Kept-same c.funcs);
    closed = λ a h. inl h;
  }

  number-Grows : (v : Object) → Grows store c (record c { numbers = add_new v c.numbers })
  number-Grows v = record {
    extends =
        Extends-Kept c _ (Kept-same c.tables) (Kept-added v c.numbers) (Kept-same c.u30s)
          (Kept-same c.strings) (Kept-same c.funcs);
    closed = λ a h. inl h;
  }

  pub packer_string-Collects :
      (s : List ℕ) → Collects store c (Covered (string s)) (packer_string (string s) c)
  unfolding packer_string
  packer_string-Collects s = elim (Bool-cases (contains (string s) c.strings)) [
    | inl e ↦ rw (e, Collects) (Grows-same store c, e)
    | inr e ↦ rw (e, Collects) (string-Grows (string s), contains-added (string s) c.strings)
  ]

  pub packer_function-Collects :
      (n : ℕ) → Collects store c (Covered (function n)) (packer_function (function n) c)
  unfolding packer_function
  packer_function-Collects n = elim (Bool-cases (contains (function n) c.funcs)) [
    | inl e ↦ rw (e, Collects) (Grows-same store c, e)
    | inr e ↦ rw (e, Collects) (function-Grows (function n), contains-added (function n) c.funcs)
  ]

  abbrev pub HasNumber : Object → Ctx → Type 0
  HasNumber v d = (contains v d.numbers || contains v d.u30s) ≡ true

  pub packer_number-Collects : (v : Object) → Collects store c (HasNumber v) (packer_number v c)
  unfolding packer_number
  packer_number-Collects v = elim (Bool-cases (contains v c.numbers || contains v c.u30s)) [
    | inl e ↦ rw (e, Collects) (Grows-same store c, e)
    | inr e ↦ elim (Bool-cases (is_nan v)) [
      | inl g ↦ rw (e, g, Collects) tt
      | inr g ↦ elim (Bool-cases (fits_u30 v)) [
        | inl i ↦
            rw (e, g, i, Collects)
              (u30-Grows v, rw (contains-added v c.u30s) (or_true_right (contains v c.numbers)))
        | inr i ↦ rw (e, g, i, Collects) (number-Grows v, rw (contains-added v c.numbers) refl)
      ]
    ]
  ]
