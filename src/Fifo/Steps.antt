-- ===== src/Fifo/Steps.antt =====
-- src/fifo.c: a pipe as steps of Lua and of libevent's callbacks.
use luafan.Common.{ℕ, ◌≡◌, refl, sym, ap, Bool, true, false, Option, none, some, List, [], arith}
use mathlib.Core.Path.{subst}
use luafan.Fifo.Pipe.{
  State, Options, Found, regular_file, fifo_file, another_file, no_file, Connected, file_exists,
  not_made, not_opened, connected, connect, new_fifo, open_fifo, with_read_ev, with_write_ev,
  Action,
}
use luafan.Fifo.Calls.{Setup, write_cb, read_cb, send_request, send, close}
use luafan.Fifo.Releases.{
  IsSound, times, frees_read, frees_write, closes, one_if, one_if_open, write_cb-IsSound,
  read_cb-IsSound, send-IsSound, send_request-IsSound, close-IsSound,
}

-- Any number of calls and callbacks, where the Lua code that a callback runs is such steps too.
pub data Steps : State → State → Type 0 where
  stop : (s : State) → Steps s s
  by_write_cb :
      {t : State} (s : State) (setup : Setup) (lua_code : State → State)
      → ((p : State) → Steps p (lua_code p))
      → Steps (write_cb setup lua_code s) t
      → Steps s t
  by_read_cb :
      {t : State} (s : State) (len : ℕ) (again : Bool) (buf : List ℕ) (setup : Setup)
      (lua_code : State → State)
      → ((p : State) → Steps p (lua_code p))
      → Steps (read_cb len again buf setup lua_code s) t
      → Steps s t
  by_send :
      {t : State} (s : State) (data_ : Option (List ℕ)) (len : ℕ) (again : Bool) (setup : Setup)
      (lua_code : State → State)
      → ((p : State) → Steps p (lua_code p))
      → Steps (send data_ len again setup lua_code s).1 t
      → Steps s t
  by_send_request : {t : State} (s : State) → Steps (send_request s).1 t → Steps s t
  by_close : {t : State} (s : State) → Steps (close s) t → Steps s t

Steps-Keeps : {r w : Bool} (s t : State) → Steps s t → IsSound r w s → IsSound r w t
Steps-Keeps s _ (stop _) i = i
Steps-Keeps _ t (by_write_cb s setup code runs more) i =
    Steps-Keeps _ t more (write_cb-IsSound code (λ p. Steps-Keeps p (code p) (runs p)) setup s i)
Steps-Keeps _ t (by_read_cb s len again buf setup code runs more) i =
    Steps-Keeps _ t more
      (read_cb-IsSound code (λ p. Steps-Keeps p (code p) (runs p)) len again buf setup s i)
Steps-Keeps _ t (by_send s data_ len again setup code runs more) i =
    Steps-Keeps _ t more
      (send-IsSound code (λ p. Steps-Keeps p (code p) (runs p)) data_ len again setup s i)
Steps-Keeps _ t (by_send_request s more) i = Steps-Keeps _ t more (send_request-IsSound s i)
Steps-Keeps _ t (by_close s more) i = Steps-Keeps _ t more (close-IsSound s i)

with_write_ev-IsSound :
    (ref : Option ℕ) (s : State)
    → s.fifo.read_ev ≡ false
    → s.fifo.write_ev ≡ false
    → one_if_open s.fifo.socket ≡ 1
    → IsSound false false s
    → IsSound false (with_write_ev ref s).fifo.write_ev (with_write_ev ref s)
      × ((with_write_ev ref s).fifo.read_ev ≡ false)
      × (one_if_open (with_write_ev ref s).fifo.socket ≡ 1)
unfolding times
with_write_ev-IsSound none s no_read fresh held i =
    (subst (λ b. IsSound false b s) (sym fresh) i, no_read, held)
with_write_ev-IsSound (some n) s no_read fresh held i = (
  record {
    read_once = let q = i.read_once in omega arith;
    write_once = let q = i.write_once in omega (arith, ap one_if fresh);
    socket_once = let q = i.socket_once in omega arith;
    read_open = i.read_open;
    write_open = omega (arith, held);
  },
  no_read,
  held,
)

with_read_ev-IsSound :
    (ref : Option ℕ) (s : State)
    → s.fifo.read_ev ≡ false
    → one_if_open s.fifo.socket ≡ 1
    → IsSound false s.fifo.write_ev s
    → IsSound
        (with_read_ev ref s).fifo.read_ev
        (with_read_ev ref s).fifo.write_ev
        (with_read_ev ref s)
unfolding times
with_read_ev-IsSound none s fresh held i = subst (λ b. IsSound b s.fifo.write_ev s) (sym fresh) i
with_read_ev-IsSound (some n) s fresh held i = record {
  read_once = let q = i.read_once in omega (arith, ap one_if fresh);
  write_once = let q = i.write_once in omega arith;
  socket_once = let q = i.socket_once in omega arith;
  read_open = omega (arith, held);
  write_open = i.write_open;
}

-- A pipe that connect returns is sound.
abbrev StartsSound : Connected → Type 0
StartsSound (connected s) = IsSound s.fifo.read_ev s.fifo.write_ev s
StartsSound (not_opened s) = Unit
StartsSound (not_made log) = Unit
StartsSound file_exists = Unit

open_fifo-StartsSound :
    (o : Options) (fd : Option ℕ) (log : List Action)
    → times frees_read log ≡ 0
    → times frees_write log ≡ 0
    → times closes log ≡ 0
    → StartsSound (open_fifo o fd log)
unfolding new_fifo
open_fifo-StartsSound o none log no_read no_write no_close = tt
open_fifo-StartsSound o (some fd) log no_read no_write no_close =
    let f = new_fifo o in
    let base : State = record { fifo = record f { socket = some fd }; log = log } in
    let fresh : IsSound false false base = record {
      read_once = omega (arith, no_read);
      write_once = omega (arith, no_write);
      socket_once = omega (arith, no_close);
      read_open = omega arith;
      write_open = omega arith;
    } in
    let (i, no_read_ev, held) =
      with_write_ev-IsSound f.on_send_ready_ref base refl refl refl fresh in
    with_read_ev-IsSound f.on_read_ref (with_write_ev f.on_send_ready_ref base) no_read_ev held i

connect-StartsSound :
    (o : Options) (found : Found) (made : Bool) (fd : Option ℕ)
    → StartsSound (connect o found made fd)
unfolding connect times
connect-StartsSound o regular_file made fd = tt
connect-StartsSound o fifo_file made fd = open_fifo-StartsSound o fd [] refl refl refl
connect-StartsSound o another_file true fd = open_fifo-StartsSound o fd _ refl refl refl
connect-StartsSound o another_file false fd = tt
connect-StartsSound o no_file true fd = open_fifo-StartsSound o fd _ refl refl refl
connect-StartsSound o no_file false fd = tt

-- Whatever Lua and the event callbacks do with a pipe that connect has returned, the code that
-- callbacks run included, each of its events is freed at most once and needs the open socket, the
-- socket is closed at most once, and a close leaves each event that connect made freed, and the
-- socket closed, exactly once.
pub connect-Steps :
    (o : Options) (found : Found) (made : Bool) (fd : Option ℕ) (s t : State)
    → connect o found made fd ≡ connected s
    → Steps s t
    → IsSound s.fifo.read_ev s.fifo.write_ev t
      × (times frees_read (close t).log ≡ one_if s.fifo.read_ev)
      × (times frees_write (close t).log ≡ one_if s.fifo.write_ev)
      × (times closes (close t).log ≡ 1)
unfolding close
connect-Steps o found made fd s t is steps =
    let start : IsSound s.fifo.read_ev s.fifo.write_ev s =
      subst StartsSound is (connect-StartsSound o found made fd) in
    let i = Steps-Keeps s t steps start in
    let c = close-IsSound t i in
    (
      i,
      let q = c.read_once in omega arith,
      let q = c.write_once in omega arith,
      let q = c.socket_once in omega arith,
    )
