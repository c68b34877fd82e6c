-- ===== src/ObjectBuf/ArrayPart.antt =====
-- src/objectbuf.c: how far the array part of a table goes.
use luafan.Common.{
  ℕ, zero, suc, ◌+◌, ◌≤◌, ◌<◌, ◌≡◌, refl, ap, ◌∙◌, Bool, false, List, [], ◌∷◌, length, ◌==◌, ==→eq,
  Bool-cases, inl, inr, if◌then◌else◌, arith,
}
use luafan.ObjectBuf.Objects.{
  Object, no_object, boolean, whole, real, string, table, function, other, Entries, raw_get,
  same_object,
}
use luafan.ObjectBuf.Encode.{until_nil, array_part}

abbrev one_unless_nil : Object → ℕ
one_unless_nil no_object = 0
one_unless_nil v = 1

abbrev one_if : Bool → ℕ
one_if b = if b then 1 else 0

-- The keys from `i` on, `n` of them, that have a value.
hits : Entries → ℕ → ℕ → ℕ
hits es i zero = 0
hits es i (suc n) = one_unless_nil (raw_get es (whole i)) + hits es (i + 1) n

-- The keys from `i` on, `n` of them, that are the key `k`.
same : Object → ℕ → ℕ → ℕ
same k i zero = 0
same k i (suc n) = one_if (same_object k (whole i)) + same k (i + 1) n

same_past : (m i n : ℕ) → m < i → same (whole m) i n ≡ 0
unfolding same same_object
same_past m i zero past = refl
same_past m i (suc n) past =
    let differs : (m == i) ≡ false = ground arith in
    rw differs (omega (arith, same_past m (i + 1) n (omega arith)))

same_whole : (m i n : ℕ) → same (whole m) i n ≤ 1
unfolding same same_object
same_whole m i zero = omega arith
same_whole m i (suc n) = elim (Bool-cases (m == i)) [
  | inl e ↦ rw e (omega (arith, same_past m (i + 1) n (omega (arith, ==→eq m i e))))
  | inr e ↦ rw e (omega (arith, same_whole m (i + 1) n))
]

same_once : (k : Object) (i n : ℕ) → same k i n ≤ 1
unfolding same same_object
same_once (whole m) i n = same_whole m i n
same_once k i zero = omega arith
same_once no_object i (suc n) = omega (arith, same_once no_object (i + 1) n)
same_once (boolean b) i (suc n) = omega (arith, same_once (boolean b) (i + 1) n)
same_once (real m) i (suc n) = omega (arith, same_once (real m) (i + 1) n)
same_once (string s) i (suc n) = omega (arith, same_once (string s) (i + 1) n)
same_once (table a) i (suc n) = omega (arith, same_once (table a) (i + 1) n)
same_once (function m) i (suc n) = omega (arith, same_once (function m) (i + 1) n)
same_once (other m) i (suc n) = omega (arith, same_once (other m) (i + 1) n)

at_most_one : (v : Object) → one_unless_nil v ≤ 1
at_most_one no_object = omega arith
at_most_one _ = omega arith

hits-cons :
    (k v : Object) (es : Entries) (i n : ℕ) → hits ((k, v) ∷ es) i n ≤ same k i n + hits es i n
unfolding hits same raw_get
hits-cons k v es i zero = omega arith
hits-cons k v es i (suc n) =
    let more = hits-cons k v es (i + 1) n in
    elim (Bool-cases (same_object k (whole i))) [
      | inl e ↦ rw e (omega (arith, more, at_most_one v))
      | inr e ↦ rw e (omega (arith, more))
    ]

hits-nil : (i n : ℕ) → hits [] i n ≡ 0
unfolding hits raw_get
hits-nil i zero = refl
hits-nil i (suc n) = omega (arith, hits-nil (i + 1) n)

-- No table has more such keys than entries.
hits_bound : (es : Entries) (i n : ℕ) → hits es i n ≤ length es
hits_bound [] i n = omega (arith, hits-nil i n)
hits_bound ((k, v) ∷ es) i n =
    omega (arith, hits-cons k v es i n, same_once k i n, hits_bound es i n)

length-until_nil :
    (v : Object) (more : List Object) → length (until_nil v more) ≤ one_unless_nil v + length more
length-until_nil no_object more = omega arith
length-until_nil _ more = omega arith

length-array_part : (n : ℕ) (es : Entries) (i : ℕ) → length (array_part n es i) ≤ hits es i n
unfolding hits array_part
length-array_part zero es i = omega arith
length-array_part (suc n) es i = omega (
  arith,
  length-until_nil (raw_get es (whole i)) (array_part n es (i + 1)),
  length-array_part n es (i + 1),
)

-- Where the search is not cut off, nil stands behind what it found.
stops_at_nil :
    (n : ℕ) (es : Entries) (i : ℕ)
    → length (array_part n es i) < n
    → raw_get es (whole (i + length (array_part n es i))) ≡ no_object
unfolding array_part
stops_at_nil zero es i short = absurd (omega arith)
stops_at_nil (suc n) es i short = go (raw_get es (whole i)) refl short (stops_at_nil n es (i + 1))
  where
    go :
        (v : Object)
        → raw_get es (whole i) ≡ v
        → length (until_nil v (array_part n es (i + 1))) < suc n
        → (length (array_part n es (i + 1)) < n
            → raw_get es (whole (i + 1 + length (array_part n es (i + 1)))) ≡ no_object)
        → raw_get es (whole (i + length (until_nil v (array_part n es (i + 1))))) ≡ no_object
    go no_object e s rest = ap (λ k. raw_get es (whole k)) (omega arith) ∙ e
    go _ e s rest = ap (λ k. raw_get es (whole k)) (omega arith) ∙ rest (omega arith)

-- The array part ends at the first key from 1 on that has no value.
pub array_part_lem :
    (es : Entries) → raw_get es (whole (1 + length (array_part (length es + 1) es 1))) ≡ no_object
array_part_lem es =
    stops_at_nil (length es + 1) es 1
      (omega (arith, length-array_part (length es + 1) es 1, hits_bound es 1 (length es + 1)))
