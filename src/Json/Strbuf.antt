-- ===== src/Json/Strbuf.antt =====
-- src/json.c: the string buffer that the encoder writes to.
use luafan.Common.{
  ℕ, zero, suc, ◌-◌, ◌*◌, ◌/◌, Bool, true, false, Option, none, some, List, [], ◌∷◌, ltb, leb, ◌==◌,
  if◌then◌else◌, length, take, blit,
}
use luafan.Common.Words.{size_mod}
use luafan.ByteArray.State.{Heap, add_size, bytes_of, is_null}
use luafan.ByteArray.Grow.{malloc, realloc}

pub record Strbuf : Type 0 where
  pub data_ : Option (List ℕ)
  pub len : ℕ
  pub cap : ℕ

-- The bytes that have been written.
abbrev pub contents : Strbuf → List ℕ
contents b = take b.len (bytes_of b.data_)

abbrev first_zero : Option (List ℕ) → Option (List ℕ)
first_zero none = none
first_zero (some bs) = some (blit bs 0 (0 ∷ []))

unfoldable pub strbuf_init : Heap → Strbuf
strbuf_init h = record { data_ = first_zero (malloc h 256); len = 0; cap = 256 }

unfoldable pub strbuf_free : Strbuf → Strbuf
strbuf_free b = record { data_ = none; len = 0; cap = 0 }

-- The loop that doubles the capacity, at most 64 times for a `size_t` that is not 0.
unfoldable pub doubled : ℕ → ℕ → ℕ → Option ℕ
doubled zero needed ncap = none
doubled (suc f) needed ncap =
    let more = doubled f needed (ncap * 2) in
    if leb needed ncap then some ncap else if ltb ((size_mod - 1) / 2) ncap then none else more

-- the new block of the buffer, if there is one
abbrev pub moved : Strbuf → ℕ → Option (List ℕ) → Bool × Strbuf
moved b ncap none = (false, b)
moved b ncap (some p) = (true, record b { data_ = some p; cap = ncap })

abbrev pub grow : Heap → Strbuf → Option ℕ → Bool × Strbuf
grow h b none = (false, b)
grow h b (some ncap) = moved b ncap (realloc h b.data_ ncap)

unfoldable pub strbuf_reserve : Heap → Strbuf → ℕ → Bool × Strbuf
unfolding doubled
strbuf_reserve h b need =
    let needed = add_size (add_size b.len need) 1 in
    if leb needed b.cap
    then (true, b)
    else grow h b (doubled 65 needed (if b.cap == 0 then 256 else b.cap))

-- `memcpy` behind the contents, and the zero behind that
abbrev pub with_bytes : Strbuf → List ℕ → Strbuf
with_bytes b s =
    let len = add_size b.len (length s) in
    record b { data_ = some (blit (blit (bytes_of b.data_) b.len s) len (0 ∷ [])); len = len }

abbrev pub append_to : List ℕ → Bool × Strbuf → Bool × Strbuf
append_to s (true, b) = (true, with_bytes b s)
append_to s (false, b) = (false, b)

unfoldable pub strbuf_append : Heap → Strbuf → List ℕ → Bool × Strbuf
unfolding strbuf_reserve
strbuf_append h b s =
    if is_null b.data_ then (false, b) else append_to s (strbuf_reserve h b (length s))
