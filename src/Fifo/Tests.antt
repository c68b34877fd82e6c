-- ===== src/Fifo/Tests.antt =====
-- Named pipes at concrete inputs.
use luafan.Common.{◌≡◌, refl, true, none, some, [], ◌∷◌}
use luafan.Fifo.Pipe.{
  State, Options, no_file, connected, connect, new_fifo, has_letter, read_event, write_event,
  unlink, mkfifo, event_add, resume, thread_unref, bytes_from, act,
}
use luafan.Fifo.Calls.{function, unlink_name, read_cb, close, send_request}
use luafan.Fifo.Releases.{close-close, IsSound, times, frees_read, frees_write, closes}
use luafan.Fifo.Steps.{Steps, stop, by_send_request, by_close, connect-Steps}

-- "p" with the mode "rw" and functions 7, 8 and 9
abbrev both_ways : Options
both_ways = record {
  name = 112 ∷ [];
  mode = 384;
  delete_on_close = true;
  rwmode = some (114 ∷ 119 ∷ []);
  onread = some 7;
  onsendready = some 8;
  ondisconnected = some 9;
}

-- what connect makes of it where nothing has the name
abbrev opened : State
opened = record {
  fifo = record {
    socket = some 4;
    name = some (112 ∷ []);
    delete_on_close = true;
    on_read_ref = some 7;
    on_send_ready_ref = some 8;
    on_disconnected_ref = some 9;
    read_ev = true;
    write_ev = true;
  };
  log =
      event_add read_event
      ∷ event_add write_event
      ∷ mkfifo (112 ∷ []) 384
      ∷ unlink (some (112 ∷ []))
      ∷ [];
}

opened_by_connect : connect both_ways no_file true (some 4) ≡ connected opened
unfolding connect new_fifo has_letter
opened_by_connect = refl

requested_and_closed : Steps opened (close (send_request opened).1)
requested_and_closed = by_send_request opened (by_close (send_request opened).1 (stop _))

connect-Steps_example :
    IsSound true true (close (send_request opened).1)
    × (times frees_read (close (close (send_request opened).1)).log ≡ 1)
    × (times frees_write (close (close (send_request opened).1)).log ≡ 1)
    × (times closes (close (close (send_request opened).1)).log ≡ 1)
connect-Steps_example =
    connect-Steps both_ways no_file true (some 4) opened (close (send_request opened).1)
      opened_by_connect requested_and_closed

close-close_example :
    close (close opened) ≡ record (close opened) { log = unlink_name true none (close opened).log }
close-close_example = close-close opened

-- A read that fails with -1: the callback gets 2 ^ 64 - 1 bytes, whatever errno is.
failed_read :
    read_cb 18446744073709551615 true [] function (λ s. s) opened
    ≡ act thread_unref (act (resume 7 (bytes_from [] 18446744073709551615)) opened)
unfolding read_cb
failed_read = refl
