-- ===== src/ByteArray/Samples.antt =====
-- Arrays and a heap that the tests share.
use luafan.Common.{true, false, some, [], ◌∷◌, refl, arith}
use luafan.ByteArray.State.{Heap, ByteArray}
use luafan.ByteArray.Inv.{IsValid}
use luafan.ByteArray.Append.{IsWriting}

abbrev pub roomy : Heap
roomy = record { grants = λ _. true; garbage = λ i. i }

-- three bytes written into a block of four
abbrev pub filling : ByteArray
filling = record {
  offset = 3;
  total = 4;
  mark = 0;
  buffer = some (7 ∷ 8 ∷ 9 ∷ 0 ∷ []);
  buflen = 4;
  reading = false;
  wrapbuffer = false;
}

-- the same block read up to its second byte
abbrev pub draining : ByteArray
draining = record {
  offset = 1;
  total = 3;
  mark = 1;
  buffer = some (7 ∷ 8 ∷ 9 ∷ 0 ∷ []);
  buflen = 4;
  reading = true;
  wrapbuffer = false;
}

-- nothing written yet
abbrev pub blank : ByteArray
blank = record {
  offset = 0;
  total = 2;
  mark = 0;
  buffer = some (0 ∷ 0 ∷ []);
  buflen = 2;
  reading = false;
  wrapbuffer = false;
}

pub filling-IsValid : IsValid filling
filling-IsValid = omega arith

pub draining-IsValid : IsValid draining
draining-IsValid = omega arith

pub filling-IsWriting : IsWriting filling
filling-IsWriting = record { valid = filling-IsValid; owned = refl; mode = refl }

pub blank-IsWriting : IsWriting blank
blank-IsWriting = record { valid = omega arith; owned = refl; mode = refl }
