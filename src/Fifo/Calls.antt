-- ===== src/Fifo/Calls.antt =====
-- src/fifo.c: the callbacks of the events, send, send_req and close.
use luafan.Common.{
  ℕ, Bool, true, false, ◌&&◌, Option, none, some, List, [], ◌∷◌, ltb, leb, if◌then◌else◌,
}
use luafan.Fifo.Pipe.{
  Event, read_event, write_event, Argument, nothing, pipe_closed, bytes_from, Action, unlink,
  event_add, event_free, close_fd, unref, resume, thread_unref, State, act,
}

-- What `fan_cb_setup` finds: no memory for a thread, a value that is no function, or a function.
pub data Setup : Type 0 where
  no_thread no_function function : Setup

-- `lua_code` is what the resumed function does before it yields or ends.
abbrev pub call_back : Setup → ℕ → Argument → (State → State) → State → State
call_back no_thread r a lua_code s = s
call_back no_function r a lua_code s = act thread_unref s
call_back function r a lua_code s = act thread_unref (lua_code (act (resume r a) s))

abbrev pub call_ref : Option ℕ → Setup → Argument → (State → State) → State → State
call_ref none setup a lua_code s = s
call_ref (some r) setup a lua_code s = call_back setup r a lua_code s

unfoldable pub write_cb : Setup → (State → State) → State → State
write_cb setup lua_code s = call_ref s.fifo.on_send_ready_ref setup nothing lua_code s

-- `len` is the size_t that the result of `read` is stored in, `again` if errno is EAGAIN or EINTR.
unfoldable pub read_cb : ℕ → Bool → List ℕ → Setup → (State → State) → State → State
read_cb len again buf setup lua_code s =
    if leb len 0
    then if ltb len 0 && again
      then s
      else call_ref s.fifo.on_disconnected_ref setup pipe_closed lua_code s
    else call_ref s.fifo.on_read_ref setup (bytes_from buf len) lua_code s

pub data Reply : Type 0 where
  done : Reply
  count : ℕ → Reply
  not_writable : Reply
  not_defined : Reply

unfoldable pub send_request : State → Reply × State
send_request s =
    if s.fifo.write_ev
    then (done, act (event_add write_event) s)
    else elim s.fifo.on_send_ready_ref [ none ↦ (not_defined, s) | some r ↦ (not_writable, s) ]

unfoldable pub free_event : Bool → Event → List Action → List Action
free_event true e log = event_free e ∷ log
free_event false e log = log

unfoldable pub drop_write_ev : State → State
unfolding free_event
drop_write_ev s = record {
  fifo = record s.fifo { write_ev = false };
  log = free_event s.fifo.write_ev write_event s.log;
}

-- `len` is the size_t that the result of `write` is stored in.
unfoldable pub send : Option (List ℕ) → ℕ → Bool → Setup → (State → State) → State → Reply × State
unfolding drop_write_ev
send none len again setup lua_code s = (count 0, s)
send (some []) len again setup lua_code s = (count 0, s)
send (some (c ∷ cs)) len again setup lua_code s =
    if leb len 0
    then if ltb len 0 && again then (count 0, s) else (
      count len,
      drop_write_ev (call_ref s.fifo.on_disconnected_ref setup pipe_closed lua_code s),
    )
    else (count len, s)

abbrev pub clear_ref : Option ℕ → List Action → List Action
clear_ref none log = log
clear_ref (some r) log = unref r ∷ log

abbrev pub close_socket : Option ℕ → List Action → List Action
close_socket none log = log
close_socket (some fd) log = close_fd fd ∷ log

abbrev pub unlink_name : Bool → Option (List ℕ) → List Action → List Action
unlink_name true name log = unlink name ∷ log
unlink_name false name log = log

-- also the finalizer
unfoldable pub close : State → State
unfolding free_event
close s =
    let f = s.fifo in
    let cleared =
      clear_ref f.on_disconnected_ref
        (clear_ref f.on_send_ready_ref (clear_ref f.on_read_ref s.log)) in
    record {
      fifo = record f {
        on_read_ref = none;
        on_send_ready_ref = none;
        on_disconnected_ref = none;
        read_ev = false;
        write_ev = false;
        socket = none;
        name = none;
      };
      log = unlink_name f.delete_on_close f.name (
          close_socket f.socket
            (free_event f.write_ev write_event (free_event f.read_ev read_event cleared)));
    }
