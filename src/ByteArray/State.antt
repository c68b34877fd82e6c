-- ===== src/ByteArray/State.antt =====
-- The struct BYTEARRAY of src/bytearray.h, and `size_t` arithmetic.
use luafan.Common.{ℕ, ◌+◌, ◌-◌, ◌%◌, Bool, true, false, Option, none, some, List, []}
use luafan.Common.Words.{size_mod}

-- What the C heap decides: whether an allocation of so many bytes is granted, and what a new byte
-- holds before it is written.
pub record Heap : Type 0 where
  pub grants : ℕ → Bool
  pub garbage : ℕ → ℕ

pub record ByteArray : Type 0 where
  pub offset : ℕ
  pub total : ℕ
  pub mark : ℕ
  pub buffer : Option (List ℕ)
  pub buflen : ℕ
  pub reading : Bool
  pub wrapbuffer : Bool

-- `a + b` and `a - b` on `size_t`
abbrev pub add_size : ℕ → ℕ → ℕ
add_size a b = (a + b) % size_mod

abbrev pub sub_size : ℕ → ℕ → ℕ
sub_size a b = (a + size_mod - b) % size_mod

-- The bytes behind a pointer; NULL has none.
abbrev pub bytes_of : Option (List ℕ) → List ℕ
bytes_of none = []
bytes_of (some bs) = bs

abbrev pub is_null : Option (List ℕ) → Bool
is_null none = true
is_null (some bs) = false
