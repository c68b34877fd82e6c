-- ===== src/ObjectBuf/Packs.antt =====
-- src/objectbuf.c: the packer ends, and collects what an object is made of.
use luafan.Common.{
  ℕ, zero, suc, ◌+◌, ◌≤◌, ◌<◌, ◌≡◌, refl, true, false, inl, inr, [], ◌∷◌, Bool-cases, length, arith,
}
use luafan.Common.Count.{free, free-le, free-lt, free-none}
use native.Mathlib.Decide.{dec_lt}
use luafan.ObjectBuf.Objects.{
  Object, no_object, boolean, whole, real, string, table, function, other, Entries, Tables,
  entries_at, contains,
}
use luafan.ObjectBuf.Pack.{
  Ctx, ctx_init, Packed, packed, index_is_nan, no_fuel, then_pack, add_new, pack_entries,
  packer_table, packer, packer_fuel, objectbuf_symbol,
}
use luafan.ObjectBuf.Same.{same_object-table, contains-added, contains-append, contains-cases}
use luafan.ObjectBuf.Covers.{
  Covered, EntriesCovered, Extends, Grows, Grows-same, Grows-trans, Collects, Extends-Kept,
  Kept-same, Kept-added, packer_string-Collects, packer_function-Collects, packer_number-Collects,
}

-- The tables that are not collected yet.
abbrev pub remaining : Tables → Ctx → ℕ
remaining store c = free (λ a. contains (table a) c.tables) (length store)

remaining-Extends :
    (store : Tables) (c d : Ctx) → Extends c d → remaining store d ≤ remaining store c
remaining-Extends store c d e =
    free-le (λ a. contains (table a) c.tables) (λ a. contains (table a) d.tables) (λ a. e (table a))
      (length store)

module _ (store : Tables) where
  -- A step from a larger context.
  Collects-after :
      (c d : Ctx) (Q R : Ctx → Type 0) (p : Packed)
      → Grows store c d
      → Collects store d Q p
      → ((e : Ctx) → Grows store d e → Q e → R e)
      → Collects store c R p
  Collects-after c d Q R (packed e) g h w = (Grows-trans store c d e g h.0, w e h.0 h.1)
  Collects-after c d Q R index_is_nan g h w = tt
  Collects-after c d Q R no_fuel g h w = h

  Collects-then :
      (c : Ctx) (P Q R : Ctx → Type 0) (p : Packed) (q : Ctx → Packed)
      → Collects store c P p
      → ((d : Ctx) → Grows store c d → P d → Collects store d Q (q d))
      → ((d e : Ctx) → Grows store d e → P d → Q e → R e)
      → Collects store c R (then_pack p q)
  Collects-then c P Q R (packed d) q h k w =
      Collects-after c d Q R (q d) h.0 (k d h.0 h.1) (λ e g. w d e g h.1)
  Collects-then c P Q R index_is_nan q h k w = tt
  Collects-then c P Q R no_fuel q h k w = h

  pack_entries-Collects :
      (f : ℕ) (pack : Object → Ctx → Packed)
      → ((v : Object) (c : Ctx) → remaining store c < f → Collects store c (Covered v) (pack v c))
      → (es : Entries) (c : Ctx) → remaining store c < f
      → Collects store c (EntriesCovered es) (pack_entries pack es c)
  unfolding pack_entries
  pack_entries-Collects f pack ih [] c h = (Grows-same store c, tt)
  pack_entries-Collects f pack ih ((k, v) ∷ es) c h =
      Collects-then c (Covered k) (λ e. Covered v e × EntriesCovered es e)
        (EntriesCovered ((k, v) ∷ es)) (pack k c) _ (ih k c h)
        (λ d g p.
          let less = remaining-Extends store c d g.extends in
          Collects-then d (Covered v) (EntriesCovered es) (λ e. Covered v e × EntriesCovered es e)
            (pack v d) _ (ih v d (omega arith))
            (λ e g1 p1.
              let less1 = remaining-Extends store d e g1.extends in
              pack_entries-Collects f pack ih es e (omega arith))
            (λ d1 e g1 p1 q. (g1.extends v p1, q)))
        (λ d e g p q. (g.extends k p, q.0, q.1))

  -- A table that is new, once its entries are collected.
  table-Collects :
      (a : ℕ) (c : Ctx) (p : Packed)
      → let c1 : Ctx = record c { tables = add_new (table a) c.tables } in
        Collects store c1 (EntriesCovered (entries_at store a)) p
        → Collects store c (Covered (table a)) p
  table-Collects a c (packed d) (g, all) = (
    record {
      extends = λ v h. g.extends v (
          Extends-Kept c _ (Kept-added (table a) c.tables) (Kept-same c.numbers) (Kept-same c.u30s)
            (Kept-same c.strings) (Kept-same c.funcs) v h);
      closed = λ b h. elim (g.closed b h) [
        | inl old ↦ elim (contains-cases (table b) (table a) c.tables old) [
          | inl older ↦ inl older
          | inr same ↦ let e = same_object-table a b same in inr (rw⁻¹ e all)
        ]
        | inr closed ↦ inr closed
      ];
    },
    g.extends (table a) (contains-added (table a) c.tables),
  )
  table-Collects a c index_is_nan h = tt
  table-Collects a c no_fuel h = h

  entries_at-past : (ts : Tables) (a : ℕ) → length ts ≤ a → entries_at ts a ≡ []
  entries_at-past [] a h = refl
  entries_at-past (t ∷ ts) zero h = absurd (omega arith)
  entries_at-past (t ∷ ts) (suc a) h = entries_at-past ts a (omega arith)

  packer_table-Collects :
      (f a : ℕ) (c : Ctx) (pack : Object → Ctx → Packed)
      → ((v : Object) (d : Ctx) → remaining store d < f → Collects store d (Covered v) (pack v d))
      → remaining store c < suc f
      → Collects store c (Covered (table a)) (packer_table pack store a c)
  unfolding packer_table
  packer_table-Collects f a c pack ih h = elim (Bool-cases (contains (table a) c.tables)) [
    | inl e ↦ rw (e, Collects) (Grows-same store c, e)
    | inr e ↦
        let c1 : Ctx = record c { tables = add_new (table a) c.tables } in
        rw (e, Collects)
          (table-Collects a c (pack_entries pack (entries_at store a) c1)
            (elim (dec_lt a (length store)) [
              | yes inside ↦
                  let less =
                    free-lt (λ b. contains (table b) c.tables) (λ b. contains (table b) c1.tables)
                      (λ b. contains-append (table b) (table a) c.tables) a (length store) inside e
                      (contains-added (table a) c.tables) in
                  pack_entries-Collects f pack ih (entries_at store a) c1 (omega arith)
              | no outside ↦
                  let none_there = entries_at-past store a (omega arith) in
                  rw none_there (pack_nothing pack c1)
            ]))
  ]
    where
      pack_nothing :
          (pack : Object → Ctx → Packed) (d : Ctx)
          → Collects store d (EntriesCovered []) (pack_entries pack [] d)
      pack_nothing pack d = (Grows-same store d, tt)

  -- On fuel above the number of tables that are not collected yet.
  pub packer-Collects :
      (f : ℕ) (v : Object) (c : Ctx)
      → remaining store c < f
      → Collects store c (Covered v) (packer store f v c)
  unfolding packer
  packer-Collects f (whole n) c h = packer_number-Collects store c (whole n)
  packer-Collects f (real n) c h = packer_number-Collects store c (real n)
  packer-Collects f (string s) c h = packer_string-Collects store c s
  packer-Collects f (function n) c h = packer_function-Collects store c n
  packer-Collects f no_object c h = (Grows-same store c, tt)
  packer-Collects f (boolean b) c h = (Grows-same store c, tt)
  packer-Collects f (other n) c h = (Grows-same store c, tt)
  packer-Collects zero (table a) c h = absurd (omega arith)
  packer-Collects (suc f) (table a) c h =
      packer_table-Collects f a c (packer store f) (packer-Collects f) h

  -- every table among what is collected has its entries there too
  abbrev pub Complete : Object → Packed → Type 0
  Complete v (packed c) =
      Covered v c × ((a : ℕ) → Covered (table a) c → EntriesCovered (entries_at store a) c)
  Complete v index_is_nan = Unit
  Complete v no_fuel = ⊥

  Complete-from : (v : Object) (p : Packed) → Collects store ctx_init (Covered v) p → Complete v p
  unfolding ctx_init contains
  Complete-from v (packed c) (g, has) =
      (has, λ a h. elim (g.closed a h) [ inl old ↦ absurd (impossible old) | inr all ↦ all ])
    where
      impossible : false ≡ true → ⊥
      impossible q = cc
  Complete-from v index_is_nan h = tt
  Complete-from v no_fuel h = h

  -- On any store of tables, those that contain each other or themselves included, the packer ends;
  -- it finds NaN, or collects the object and all keys and values of each table that it collects.
  pub objectbuf_symbol_lem : (v : Object) → Complete v (objectbuf_symbol store v)
  unfolding objectbuf_symbol packer_fuel ctx_init contains
  objectbuf_symbol_lem v =
      Complete-from v _ (packer-Collects (length store + 2) v ctx_init (omega (arith, all_remain)))
    where
      all_remain : remaining store ctx_init ≡ length store
      all_remain = free-none (length store)
