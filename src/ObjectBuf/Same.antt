-- ===== src/ObjectBuf/Same.antt =====
-- src/objectbuf.c: raw equality, and the lists of collected values.
use luafan.Common.{
  ℕ, ◌≡◌, refl, true, false, List, [], ◌∷◌, ◌++◌, ◌==◌, ==→eq, Bool-cases, ◌⊎◌, inl, inr, arith,
}
use luafan.ObjectBuf.Objects.{
  Object, no_object, boolean, whole, real, string, table, function, other, same_bytes, same_object,
  contains,
}

==-refl : (n : ℕ) → (n == n) ≡ true
==-refl n = ground arith

same_bytes_refl : (s : List ℕ) → same_bytes s s ≡ true
unfolding same_bytes
same_bytes_refl [] = refl
same_bytes_refl (x ∷ s) = rw (==-refl x) (same_bytes_refl s)

pub same_object_refl : (v : Object) → same_object v v ≡ true
unfolding same_object
same_object_refl no_object = refl
same_object_refl (boolean true) = refl
same_object_refl (boolean false) = refl
same_object_refl (whole n) = ==-refl n
same_object_refl (real n) = ==-refl n
same_object_refl (string s) = same_bytes_refl s
same_object_refl (table a) = ==-refl a
same_object_refl (function a) = ==-refl a
same_object_refl (other a) = ==-refl a

pub same_object-table : (a b : ℕ) → same_object (table a) (table b) ≡ true → a ≡ b
unfolding same_object
same_object-table a b e = ==→eq a b e

pub contains-added : (v : Object) (vs : List Object) → contains v (vs ++ (v ∷ [])) ≡ true
unfolding contains
contains-added v [] = rw (same_object_refl v) refl
contains-added v (w ∷ vs) = elim (Bool-cases (same_object w v)) [
  | inl e ↦ rw e refl
  | inr e ↦ rw e (contains-added v vs)
]

pub contains-append :
    (v w : Object) (vs : List Object) → contains v vs ≡ true → contains v (vs ++ (w ∷ [])) ≡ true
unfolding contains
contains-append v w [] e = cc
contains-append v w (u ∷ vs) e = elim (Bool-cases (same_object u v)) [
  | inl g ↦ rw g refl
  | inr g ↦ rw g (contains-append v w vs (rw g at e))
]

pub contains-cases :
    (v w : Object) (vs : List Object)
    → contains v (vs ++ (w ∷ [])) ≡ true
    → (contains v vs ≡ true) ⊎ (same_object w v ≡ true)
unfolding contains
contains-cases v w [] e = elim (Bool-cases (same_object w v)) [
  | inl g ↦ inr g
  | inr g ↦ absurd (impossible (rw g at e))
]
  where
    impossible : false ≡ true → ⊥
    impossible q = cc
contains-cases v w (u ∷ vs) e = elim (Bool-cases (same_object u v)) [
  | inl g ↦ inl (rw g refl)
  | inr g ↦ rw g (contains-cases v w vs (rw g at e))
]
