-- ===== src/ObjectBuf/Ends.antt =====
-- src/objectbuf.c: objectbuf_decode ends.
use luafan.Common.{
  ℕ, zero, suc, ◌+◌, ◌-◌, ◌^◌, ◌<◌, ◌≡◌, Bool, true, false, List, [], length, ltb, Bool-cases, inl,
  inr, arith,
}
use luafan.ByteArray.State.{ByteArray}
use luafan.ByteArray.Mode.{wrap_buffer, read_available}
use luafan.ByteArray.Modes.{read_available-unread}
use luafan.Stream.Get.{get_u30, get_d64, get_string}
use luafan.ObjectBuf.Objects.{Object, no_object, whole, Entries, Tables}
use luafan.ObjectBuf.Pack.{is_nan}
use luafan.ObjectBuf.Encode.{
  Numbers, Symbols, blank, has_number_mask, has_u30_mask, has_string_mask,
}
use luafan.ObjectBuf.Decode.{
  Failure, decode_failed, no_number, no_number_count, no_count, no_i_value, Got, or_missing,
  and_then, found, as_object, as_string, got_string, Reader, read_values, read_section, resolve,
  set_pair, raw_set, read_array, read_pairs, read_table, set_entries, read_tables, read_scalars,
  object_at, has_mask,
}
use luafan.ObjectBuf.Readable.{
  EndsIn, and_then-EndsIn, IsReadable, weaker, wrapped, found-IsReadable, get_d64-IsReadable,
  get_string-IsReadable,
}

abbrev pub Any : {A : Type 0} → A → Type 0
Any a = Unit

-- What a reader of values keeps of the array.
abbrev KeepsReadable : (ℕ → ByteArray → Got (Object × ByteArray)) → ℕ → Type 0
KeepsReadable get n =
    (i : ℕ) (d : ByteArray) → IsReadable d n → EndsIn (λ x. IsReadable x.1 n) (get i d)

read_values-EndsIn :
    (get : ℕ → ByteArray → Got (Object × ByteArray)) (n : ℕ)
    → KeepsReadable get n
    → (k i : ℕ) (r : Reader) → IsReadable r.input n
    → EndsIn (λ r1. IsReadable r1.input n) (read_values get k i r)
unfolding read_values
read_values-EndsIn get n keeps zero i r h = h
read_values-EndsIn get n keeps (suc k) i r h =
    and_then-EndsIn (λ x. IsReadable x.1 n) (λ r1. IsReadable r1.input n) (get i r.input) _
      (keeps i r.input h) λ (v, ba) h1. read_values-EndsIn get n keeps k (i + 1) _ h1

read_section-EndsIn :
    (e : Failure) (get : ℕ → ℕ → ByteArray → Got (Object × ByteArray)) (n : ℕ)
    → ((count : ℕ) → KeepsReadable (get count) n)
    → (announced : Bool) (r : Reader) → IsReadable r.input n
    → EndsIn (λ r1. IsReadable r1.input n) (read_section e get announced r)
unfolding read_section
read_section-EndsIn e get n keeps false r h = h
read_section-EndsIn e get n keeps true r h =
    and_then-EndsIn (λ x. (x.0 < 2 ^ 32) × IsReadable x.1 (n - 1)) (λ r1. IsReadable r1.input n)
      (found e (get_u30 r.input)) _ (found-IsReadable e r.input n h)
      λ (count, ba) (small, h1).
        read_values-EndsIn (get count) n (keeps count) count 1 _
          (weaker ba (n - 1) n (omega arith) h1)

module _ (num : Numbers) (sym : Symbols) where
  resolve-EndsIn : (m : ℕ → Object) (i : ℕ) → EndsIn Any (resolve num sym m i)
  unfolding resolve
  resolve-EndsIn m i = go (object_at num sym m i)
    where
      go : (v : Object) → EndsIn Any (or_missing i v)
      go no_object = tt
      go _ = tt

  set_pair-EndsIn : (k v : Object) (es : Entries) → EndsIn Any (set_pair num sym k v es)
  unfolding set_pair
  set_pair-EndsIn k v es = elim (Bool-cases (is_nan k)) [ inl e ↦ rw e tt | inr e ↦ rw e tt ]

  read_array-EndsIn :
      (m : ℕ → Object) (n k j : ℕ) (d : ByteArray) (es : Entries)
      → IsReadable d n
      → EndsIn (λ x. IsReadable x.1 n) (read_array num sym m k j d es)
  unfolding read_array
  read_array-EndsIn m n zero j d es h = h
  read_array-EndsIn m n (suc k) j d es h =
      and_then-EndsIn (λ x. (x.0 < 2 ^ 32) × IsReadable x.1 (n - 1)) (λ x. IsReadable x.1 n)
        (found no_i_value (get_u30 d)) _ (found-IsReadable no_i_value d n h)
        λ (vi, d1) (small, h1).
          and_then-EndsIn Any (λ x. IsReadable x.1 n) (resolve num sym m vi) _ (resolve-EndsIn m vi)
            λ v _.
              read_array-EndsIn m n k (j + 1) d1 (raw_set (whole j) v es)
                (weaker d1 (n - 1) n (omega arith) h1)

  -- A unit of fuel for each byte and one more is enough.
  read_pairs-EndsIn :
      (f : ℕ) (m : ℕ → Object) (n : ℕ) (d : ByteArray) (es : Entries)
      → IsReadable d n
      → n < f
      → EndsIn Any (read_pairs num sym f m d es)
  unfolding read_pairs
  read_pairs-EndsIn zero m n d es h fuel = absurd (omega arith)
  read_pairs-EndsIn (suc f) m n d es h fuel = elim (Bool-cases (ltb 0 (read_available d))) [
    | inl some_left ↦
        rw (some_left, EndsIn)
          (and_then-EndsIn (λ x. (x.0 < 2 ^ 32) × IsReadable x.1 (n - 1)) Any
            (found decode_failed (get_u30 d)) _ (found-IsReadable decode_failed d n h)
            λ (ki, d1) (small, h1).
              and_then-EndsIn (λ x. (x.0 < 2 ^ 32) × IsReadable x.1 (n - 1 - 1)) Any
                (found decode_failed (get_u30 d1)) _ (found-IsReadable decode_failed d1 (n - 1) h1)
                λ (vi, d2) (small2, h2).
                  and_then-EndsIn Any Any (resolve num sym m ki) _ (resolve-EndsIn m ki) λ k _.
                    and_then-EndsIn Any Any (resolve num sym m vi) _ (resolve-EndsIn m vi) λ v _.
                      and_then-EndsIn Any Any (set_pair num sym k v es) _ (set_pair-EndsIn k v es)
                        λ es1 _. read_pairs-EndsIn f m (n - 1 - 1) d2 es1 h2 (less some_left))
    | inr e ↦ rw (e, EndsIn) tt
  ]
    where
      less : ltb 0 (read_available d) ≡ true → n - 1 - 1 < f
      less some_left =
          let available = read_available-unread d h.valid h.has_block h.mode in
          let bound = h.left in let positive : 0 < read_available d = ground arith in omega arith

  read_table-EndsIn :
      (m : ℕ → Object) (s : List ℕ) → length s < 2 ^ 32 → EndsIn Any (read_table num sym m s)
  unfolding read_table
  read_table-EndsIn m s small =
      let n = length s in
      let d = (wrap_buffer blank s n).1 in
      and_then-EndsIn (λ x. (x.0 < 2 ^ 32) × IsReadable x.1 (n - 1)) Any
        (found no_count (get_u30 d)) _ (found-IsReadable no_count d n (wrapped s small))
        λ (count, d1) (small1, h1).
          and_then-EndsIn (λ x. IsReadable x.1 (n - 1)) Any (read_array num sym m count 1 d1 []) _
            (read_array-EndsIn m (n - 1) count 1 d1 [] h1)
            λ (es, d2) h2. read_pairs-EndsIn (n + 1) m (n - 1) d2 es h2 (omega arith)

  pub read_tables-EndsIn :
      (m : ℕ → Object) (n k a : ℕ) (d : ByteArray) (store : Tables)
      → IsReadable d n
      → EndsIn Any (read_tables num sym k a m d store)
  unfolding read_tables
  read_tables-EndsIn m n zero a d store h = tt
  read_tables-EndsIn m n (suc k) a d store h =
      and_then-EndsIn (λ x. (length x.0 < 2 ^ 32) × IsReadable x.1 n) Any
        (got_string (get_string d)) _ (get_string-IsReadable d n h)
        λ (s, d1) (small, h1).
          and_then-EndsIn Any Any (read_table num sym m s) _ (read_table-EndsIn m s small)
            λ es _. read_tables-EndsIn m n k (a + 1) d1 (set_entries store a es) h1

  numbers-KeepsReadable :
      (n count : ℕ)
      → KeepsReadable
          (λ i ba. and_then (found (no_number i count) (get_d64 ba)) (as_object num.of_bits))
          n
  numbers-KeepsReadable n count i d h =
      and_then-EndsIn (λ x. IsReadable x.1 n) (λ x. IsReadable x.1 n)
        (found (no_number i count) (get_d64 d)) (as_object num.of_bits)
        (get_d64-IsReadable (no_number i count) d n h) λ (w, d1) h1. h1

  wholes-KeepsReadable :
      (n count : ℕ)
      → KeepsReadable (λ i ba. and_then (found decode_failed (get_u30 ba)) (as_object whole)) n
  wholes-KeepsReadable n count i d h =
      and_then-EndsIn (λ x. (x.0 < 2 ^ 32) × IsReadable x.1 (n - 1)) (λ x. IsReadable x.1 n)
        (found decode_failed (get_u30 d)) (as_object whole) (found-IsReadable decode_failed d n h)
        λ (w, d1) (small, h1). weaker d1 (n - 1) n (omega arith) h1

  strings-KeepsReadable :
      (n count : ℕ) → KeepsReadable (λ i ba. and_then (got_string (get_string ba)) as_string) n
  strings-KeepsReadable n count i d h =
      and_then-EndsIn (λ x. (length x.0 < 2 ^ 32) × IsReadable x.1 n) (λ x. IsReadable x.1 n)
        (got_string (get_string d)) as_string (get_string-IsReadable d n h)
        λ (s, d1) (small, h1). h1

  pub read_scalars-EndsIn :
      (flag n : ℕ) (r : Reader)
      → IsReadable r.input n
      → EndsIn (λ r3. IsReadable r3.input n) (read_scalars num sym flag r)
  unfolding read_scalars
  read_scalars-EndsIn flag n r h =
      and_then-EndsIn (λ r1. IsReadable r1.input n) (λ r3. IsReadable r3.input n) _ _
        (read_section-EndsIn no_number_count _ n (numbers-KeepsReadable n)
          (has_mask flag has_number_mask) r h)
        λ r1 h1.
          and_then-EndsIn (λ r2. IsReadable r2.input n) (λ r3. IsReadable r3.input n) _ _
            (read_section-EndsIn decode_failed _ n (wholes-KeepsReadable n)
              (has_mask flag has_u30_mask) r1 h1)
            λ r2 h2.
              read_section-EndsIn decode_failed _ n (strings-KeepsReadable n)
                (has_mask flag has_string_mask) r2 h2
