-- ===== src/ByteArray/Script.antt =====
-- A client's calls on a byte array, and a queue of bytes that answers the same calls: the contract
-- of src/bytearray.c with the block, the cursors and the growth left out.
use luafan.Common.{
  ℕ, ◌+◌, Bool, true, false, Option, none, some, List, [], ◌∷◌, ◌++◌, leb, if◌then◌else◌, length,
  take, drop,
}
use luafan.ByteArray.State.{Heap, ByteArray}
use luafan.ByteArray.Write.{writebuffer}
use luafan.ByteArray.Read.{readbuffer}
use luafan.ByteArray.Mode.{read_ready, write_ready}

pub data Op : Type 0 where
  put : List ℕ → Op
  get : ℕ → Op
  to_read to_write : Op

pub data Reply : Type 0 where
  flag : Bool → Reply
  bytes : Option (List ℕ) → Reply

unfoldable pub step : Heap → ByteArray → Op → Reply × ByteArray
step h ba (put bs) = let (r, ba') = writebuffer h ba bs in (flag r, ba')
step h ba (get n) = let (r, ba') = readbuffer ba n in (bytes r, ba')
step h ba to_read = let (r, ba') = read_ready ba in (flag r, ba')
step h ba to_write = let (r, ba') = write_ready ba in (flag r, ba')

unfoldable pub run : Heap → ByteArray → List Op → List Reply
run h ba [] = []
run h ba (o ∷ os) = let (r, ba') = step h ba o in r ∷ run h ba' os

-- The bytes of the queue, first in first out, and whether it is being read.
pub record Pipe : Type 0 where
  pub content : List ℕ
  pub reading : Bool

unfoldable pub pipe_step : Pipe → Op → Reply × Pipe
pipe_step p (put bs) = (flag true, record p { content = p.content ++ bs })
pipe_step p (get n) =
    if leb n (length p.content)
    then (bytes (some (take n p.content)), record p { content = drop n p.content })
    else (bytes none, p)
pipe_step p to_read =
    if p.reading then (flag false, p) else (flag true, record p { reading = true })
pipe_step p to_write =
    if p.reading then (flag true, record p { reading = false }) else (flag false, p)

unfoldable pub pipe_run : Pipe → List Op → List Reply
pipe_run p [] = []
pipe_run p (o ∷ os) = let (r, p') = pipe_step p o in r ∷ pipe_run p' os

-- A client that puts only in the write mode and gets only in the read mode.
abbrev pub IsModed : Bool → List Op → Type 0
IsModed reading [] = Unit
IsModed false (put bs ∷ os) = IsModed false os
IsModed true (put bs ∷ os) = ⊥
IsModed false (get n ∷ os) = ⊥
IsModed true (get n ∷ os) = IsModed true os
IsModed reading (to_read ∷ os) = IsModed true os
IsModed reading (to_write ∷ os) = IsModed false os

-- how many bytes a script puts
abbrev pub put_size : List Op → ℕ
put_size [] = 0
put_size (put bs ∷ os) = length bs + put_size os
put_size (get n ∷ os) = put_size os
put_size (to_read ∷ os) = put_size os
put_size (to_write ∷ os) = put_size os
