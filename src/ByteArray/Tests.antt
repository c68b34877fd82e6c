-- ===== src/ByteArray/Tests.antt =====
-- The byte array at concrete inputs.
use luafan.Common.{
  ℕ, ◌+◌, ◌-◌, ◌*◌, ◌/◌, ◌%◌, ◌^◌, ◌≤◌, ◌<◌, ◌≡◌, ◌≢◌, refl, Bool, true, false, Option, none, some,
  List, [], ◌∷◌, length, take, arith,
}
use luafan.ByteArray.Grow.{next_power_of_2, grown_size, ensure_capacity, realloc}
use luafan.ByteArray.Write.{write_value, store}
use luafan.ByteArray.Read.{read_value, read16}
use luafan.ByteArray.Mode.{read_ready, write_ready, set_mark, reset, empty, read_available}
use luafan.ByteArray.Capacity.{grown_size_range}
use luafan.ByteArray.Contents.{written, unread, Writes, write_value-Writes}
use luafan.ByteArray.Reads.{Reads, read_value-Reads}
use luafan.ByteArray.Inv.{IsValid, IsMarked}
use luafan.ByteArray.Modes.{read_ready_lem, write_ready_lem, reset-set_mark}
use luafan.ByteArray.StaleMark.{empty-reset_past_end}
use luafan.ByteArray.Script.{Op, put, get, to_read, to_write, run, Pipe, pipe_run}
use luafan.ByteArray.Refine.{run_refines}
use luafan.ByteArray.Samples.{roomy, filling, draining, filling-IsValid, draining-IsValid}

grown_300 : grown_size 300 ≡ 512
unfolding grown_size next_power_of_2
grown_300 = refl

grown_5000 : grown_size 5000 ≡ 6272
unfolding grown_size next_power_of_2
grown_5000 = refl

-- a write of two bytes moves the array to a block of 128 bytes
grows : (write_value roomy filling (1 ∷ 2 ∷ [])).1.buflen ≡ 128
unfolding write_value store ensure_capacity realloc grown_size next_power_of_2
grows = refl

little_endian : (read16 draining).0 ≡ some 2312
unfolding read16 read_value luafan.Common.Words.le_value
little_endian = refl

grown_size_range_example :
    (5000 ≤ grown_size 5000)
    × (grown_size 5000 < 2 ^ 63)
    × (4096 < 5000
        → (5000 + 5000 / 4 ≤ grown_size 5000)
          × (grown_size 5000 < 5000 + 5000 / 4 + 64)
          × (grown_size 5000 % 64 ≡ 0))
grown_size_range_example = grown_size_range 5000 (omega arith)

write_value-Writes_example :
    Writes roomy filling (1 ∷ 2 ∷ []) (write_value roomy filling (1 ∷ 2 ∷ []))
write_value-Writes_example =
    write_value-Writes roomy filling (1 ∷ 2 ∷ []) filling-IsValid (omega arith)

read_value-Reads_example : Reads draining 2 (read_value draining 2)
read_value-Reads_example = read_value-Reads draining 2 draining-IsValid

read_ready_lem_example :
    ((read_ready filling).0 ≡ true)
    × IsValid (read_ready filling).1
    × ((read_ready filling).1.reading ≡ true)
    × (unread (read_ready filling).1 ≡ written filling)
read_ready_lem_example = read_ready_lem filling filling-IsValid refl refl

write_ready_lem_example :
    ((write_ready draining).0 ≡ true)
    × IsValid (write_ready draining).1
    × IsMarked (write_ready draining).1
    × ((write_ready draining).1.reading ≡ false)
    × (written (write_ready draining).1 ≡ unread draining)
write_ready_lem_example = write_ready_lem draining draining-IsValid refl refl

reset-set_mark_example :
    let marked = (set_mark draining).1 in
    let after = (read_value marked 2).1 in
    ((reset after).0 ≡ true) × IsValid (reset after).1 × (unread (reset after).1 ≡ unread draining)
reset-set_mark_example = reset-set_mark draining 2 draining-IsValid refl refl

empty-reset_past_end_example :
    let x = (reset (empty draining).1).1 in
    (x.total < x.offset) × (read_available x ≡ 2 ^ 64 - 1) × ((read_value x 1000).0 ≢ none)
empty-reset_past_end_example =
    empty-reset_past_end draining 1000 refl refl (omega arith) (omega arith) (omega arith)

abbrev script : List Op
script = put (1 ∷ 2 ∷ []) ∷ to_read ∷ get 4 ∷ get 2 ∷ to_write ∷ put (3 ∷ []) ∷ []

abbrev pipe : Pipe
pipe = record { content = 7 ∷ 8 ∷ 9 ∷ []; reading = false }

run_refines_example : run roomy filling script ≡ pipe_run pipe script
run_refines_example =
    run_refines roomy (λ n. refl) script filling pipe
      (record { valid = filling-IsValid; there = refl; owned = refl; mode = refl; same = refl }) tt
      (omega arith)
