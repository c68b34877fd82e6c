-- ===== src/ByteArray/StaleMark.antt =====
-- src/bytearray.c: `bytearray_mark`, `bytearray_empty` and `bytearray_reset` in a row.
use luafan.Common.{ℕ, ◌-◌, ◌^◌, ◌≤◌, ◌<◌, ◌≡◌, ◌≢◌, none, true, false, leb, arith}
use luafan.ByteArray.State.{ByteArray, sub_size, is_null}
use luafan.ByteArray.Mode.{empty, reset, read_available}
use luafan.ByteArray.Read.{read_value}

-- In the read mode with a mark above 0 and below 2 ^ 63, empty and then reset leave the cursor past
-- total; the array then reports 2 ^ 64 - mark bytes, and a read of any size up to 2 ^ 63 succeeds.
pub empty-reset_past_end :
    (ba : ByteArray) (n : ℕ)
    → is_null ba.buffer ≡ false
    → ba.reading ≡ true
    → 0 < ba.mark
    → ba.mark < 2 ^ 63
    → n ≤ 2 ^ 63
    → let x = (reset (empty ba).1).1 in
      (x.total < x.offset) × (read_available x ≡ 2 ^ 64 - ba.mark) × ((read_value x n).0 ≢ none)
unfolding empty reset read_available read_value
empty-reset_past_end ba n p q lo hi small =
    let x = record ba { offset = ba.mark; total = 0 } in
    let e : reset (empty ba).1 ≡ (true, x) = rw (p, q) in
    let test : leb n (sub_size 0 ba.mark) ≡ true = ground arith in
    let count : read_available x ≡ 2 ^ 64 - ba.mark = rw (p, q) (omega arith) in
    rw e (omega arith, count, rw test (λ c. cc))
