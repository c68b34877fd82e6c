-- ===== src/Fifo/Pipe.antt =====
-- src/fifo.c: the userdata, and connect.
use luafan.Common.{ℕ, Bool, true, false, Option, none, some, List, [], ◌∷◌, ◌==◌, if◌then◌else◌}

-- `none` for LUA_NOREF, for a socket of -1 and for a NULL name; an event is there or not.
pub record Fifo : Type 0 where
  pub socket : Option ℕ
  pub name : Option (List ℕ)
  pub delete_on_close : Bool
  pub on_read_ref : Option ℕ
  pub on_send_ready_ref : Option ℕ
  pub on_disconnected_ref : Option ℕ
  pub read_ev : Bool
  pub write_ev : Bool

pub data Event : Type 0 where
  read_event write_event : Event

-- what a callback gets: the message "pipe closed.", or so many bytes from a buffer
pub data Argument : Type 0 where
  nothing : Argument
  pipe_closed : Argument
  bytes_from : List ℕ → ℕ → Argument

-- What the code does outside its own memory.
pub data Action : Type 0 where
  unlink : Option (List ℕ) → Action
  mkfifo : List ℕ → ℕ → Action
  event_add : Event → Action
  event_free : Event → Action
  close_fd : ℕ → Action
  unref : ℕ → Action
  resume : ℕ → Argument → Action
  thread_unref : Action

-- The userdata with the actions so far, the last one first.
pub record State : Type 0 where
  pub fifo : Fifo
  pub log : List Action

abbrev pub act : Action → State → State
act a s = record s { log = a ∷ s.log }

-- what `lstat` finds
pub data Found : Type 0 where
  regular_file fifo_file another_file no_file : Found

-- The argument of connect; a callback is a reference where the table has a function.
pub record Options : Type 0 where
  pub name : List ℕ
  pub mode : ℕ
  pub delete_on_close : Bool
  pub rwmode : Option (List ℕ)
  pub onread : Option ℕ
  pub onsendready : Option ℕ
  pub ondisconnected : Option ℕ

-- The outcomes: a raised error, no result, nil and a message, or the userdata. `not_opened` has the
-- userdata too, which is left to the collector.
pub data Connected : Type 0 where
  file_exists : Connected
  not_made : List Action → Connected
  not_opened : State → Connected
  connected : State → Connected

unfoldable pub has_letter : ℕ → List ℕ → Bool
has_letter c [] = false
has_letter c (x ∷ xs) = if x == c then true else has_letter c xs

-- `luaL_optstring(L, -1, "rn")`
abbrev pub rwmode_of : Option (List ℕ) → List ℕ
rwmode_of (some s) = s
rwmode_of none = 114 ∷ 110 ∷ []

-- the userdata before `open`
unfoldable pub new_fifo : Options → Fifo
unfolding has_letter
new_fifo o =
    let reads = has_letter 114 (rwmode_of o.rwmode) in
    let writes = has_letter 119 (rwmode_of o.rwmode) in
    record {
      socket = none;
      name = some o.name;
      delete_on_close = o.delete_on_close;
      on_read_ref = if reads then o.onread else none;
      on_send_ready_ref = if writes then o.onsendready else none;
      on_disconnected_ref = if writes then o.ondisconnected else none;
      read_ev = false;
      write_ev = false;
    }

-- A callback that is there gets its event.
abbrev pub with_write_ev : Option ℕ → State → State
with_write_ev none s = s
with_write_ev (some r) s =
    act (event_add write_event) (record s { fifo = record s.fifo { write_ev = true } })

abbrev pub with_read_ev : Option ℕ → State → State
with_read_ev none s = s
with_read_ev (some r) s =
    act (event_add read_event) (record s { fifo = record s.fifo { read_ev = true } })

-- `fd` is what `open` returns, `none` for -1.
abbrev pub open_fifo : Options → Option ℕ → List Action → Connected
open_fifo o none log = not_opened (record { fifo = new_fifo o; log = log })
open_fifo o (some fd) log =
    let f = new_fifo o in
    connected (
      with_read_ev f.on_read_ref (
        with_write_ev f.on_send_ready_ref
          (record { fifo = record f { socket = some fd }; log = log })))

-- A name that is no pipe is unlinked, and `made` says if `mkfifo` then succeeds.
abbrev pub make_fifo : Options → Bool → Option ℕ → Connected
make_fifo o made fd =
    let log = mkfifo o.name o.mode ∷ unlink (some o.name) ∷ [] in
    if made then open_fifo o fd log else not_made log

unfoldable pub connect : Options → Found → Bool → Option ℕ → Connected
unfolding new_fifo
connect o regular_file made fd = file_exists
connect o fifo_file made fd = open_fifo o fd []
connect o another_file made fd = make_fifo o made fd
connect o no_file made fd = make_fifo o made fd
