-- ===== src/Json/Answers.antt =====
-- src/json.c: the outcomes of json_decode.
use luafan.Common.{ℕ, ◌≤◌, ◌<◌, ◌≡◌, true, ltb, List, [], ◌∷◌, length, take, arith}
use luafan.Json.Place.{line_behind, column_behind, place_lem}
use luafan.Json.Value.{Value, Message, Result, ok, failed, out_of_fuel, text}
use luafan.Json.Total.{Within}
use luafan.Json.Decode.{
  Env, skip_space, place, Decoded, value, error, decode_error_at, finish, outcome, decode_fuel,
  json_decode,
}
use luafan.Json.Value.{trailing_garbage}
use luafan.Json.Atoms.{Within-le, length-skip_space}
use luafan.Json.Ends.{enough}

-- The outcomes that a text can have: a value, or an error with the line and the column behind a part
-- of the text that ends where the error is found.
pub data Answers (s : List ℕ) : Decoded → Type 0 where
  with_value : (v : Value) → Answers s (value v)
  with_error :
      (m : Message) (n : ℕ)
      → n ≤ length s
      → Answers s (error m (line_behind (take n s), column_behind (take n s)))

error-Answers :
    (s : List ℕ) (m : Message) (n : ℕ) → n ≤ length s → Answers s (error m (place s n 1 1))
error-Answers s m n h = rw (place_lem s n) (with_error m n h)

outcome-Answers : (s : List ℕ) (r : Result Value) → Within (length s) r → Answers s (outcome s r)
unfolding finish decode_error_at
outcome-Answers s (ok v rest) h = finish_at (skip_space rest)
  where
    finish_at : (left : List ℕ) → Answers s (finish s v left)
    finish_at [] = with_value v
    finish_at (c ∷ left) = error-Answers s trailing_garbage _ (omega arith)
outcome-Answers s (failed m at) h = error-Answers s m _ (omega arith)
outcome-Answers s out_of_fuel h = absurd h

-- json_decode of any text below INT_MAX bytes returns a value, or raises an error whose line is one
-- more than the newlines before some position of the text, and whose column is one more than the
-- bytes between the last newline before it, or the start, and the position.
pub json_decode_total :
    (env : Env) (s : List ℕ) → length s < 2147483647 → Answers s (json_decode env (text s))
unfolding json_decode decode_fuel
json_decode_total env s short =
    let skipped = length-skip_space s in
    let admitted : ltb (length s) 2147483647 ≡ true = ground arith in
    rw admitted (
      outcome-Answers s _ (
        Within-le _ _ _ skipped ((enough env (decode_fuel s)).values (skip_space s) (omega arith))))
