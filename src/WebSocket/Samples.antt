-- ===== src/WebSocket/Samples.antt =====
-- Concrete buffers, coroutines and requests for the WebSocket modules.
use luafan.Common.{
  ℕ, ◌≡◌, refl, Bool, true, false, some, List, [], ◌∷◌, ◌++◌, length, take, drop, arith,
}
use luafan.WebSocket.EvBuffer.{EvBuffer, EvBufferLaws}
use luafan.WebSocket.Frame.{Frame}
use luafan.WebSocket.Wire.{IsFrame}
use luafan.WebSocket.Request.{
  Request, replied, status_none, ws_open, ws_connecting, reading, flushing, off,
}
use luafan.WebSocket.Accept.{Headers}
use luafan.WebSocket.Events.{Resumption}
use luafan.WebSocket.Api.{websocket_receive}
use luafan.WebSocket.Sound.{IsSound}
use luafan.WebSocket.Life.{Calls, done, call, receive}

-- An evbuffer as the list of its bytes.
abbrev pub list_evbuffer : EvBuffer
list_evbuffer = record {
  Buffer = List ℕ;
  make = some [];
  get_length = λ b. length b;
  copyout = λ b n. take n b;
  drain = λ b n. drop n b;
  remove = λ b n. (take n b, drop n b);
  add = λ b bs. b ++ bs;
  add_buffer = λ b c. b ++ c;
}

pub some_back : (bs : List ℕ) → some [] ≡ some bs → bs ≡ []
some_back bs q = cc

abbrev pub list_laws : EvBufferLaws list_evbuffer
list_laws = record {
  contents = λ b. b;
  make_lem = some_back;
  get_length_lem = λ b. refl;
  copyout_lem = λ b n. refl;
  drain_lem = λ b n. refl;
  removed_lem = λ b n. refl;
  remove_lem = λ b n. refl;
  add_lem = λ b bs. refl;
  add_buffer_lem = λ b c. refl;
}

-- A masked text frame of two bytes, as a client sends it.
abbrev pub client_frame : Frame
client_frame = record {
  fin = true;
  rsv1 = false;
  rsv2 = false;
  rsv3 = false;
  opcode = 1;
  masked = true;
  payload_len = 2;
  mask_key = 67305985;
  payload = some (104 ∷ 105 ∷ []);
}

pub client_frame-IsFrame : IsFrame client_frame
client_frame-IsFrame = record {
  opcode_small = omega arith;
  key_small = omega arith;
  key_unused = λ q. absurd (impossible q);
  bytes = (omega arith, (omega arith, tt));
  len = refl;
  len_small = omega arith;
  absent = λ q. absurd (omega arith);
}
  where
    impossible : true ≡ false → ⊥
    impossible p = cc

-- A connection as `websocket_accept` leaves it, with these bytes not yet sent.
abbrev pub accepted : List ℕ → Request list_evbuffer
accepted bytes = record {
  req = true;
  reply_status = replied;
  is_websocket = true;
  ws_state = ws_open;
  ws_bev = true;
  mainthread = true;
  waiting = false;
  self_ref = true;
  prevent_gc_ref = true;
  frame_queue = [];
  frame_queue_len = 0;
  owns_request = true;
  ws_cleaning_up = false;
  output = bytes;
  callbacks = reading;
  read_enabled = true;
  frees_scheduled = 0;
  connections_freed = 0;
}

-- A coroutine that waits for the next frame whenever it is resumed.
abbrev pub reader : Resumption → Request list_evbuffer → Bool × Request list_evbuffer
reader what r = (false, (websocket_receive r).1)

pub reader-Calls : (what : Resumption) (r : Request list_evbuffer) → Calls r (reader what r).1
reader-Calls what r = call (receive r) (done _)

pub accepted-IsSound : IsSound (accepted [])
accepted-IsSound = (
  record { counted = refl; bounded = omega arith; no_backlog = λ q. refl },
  record {
    detached = λ q. absurd (not_cleaned q);
    attached = λ q. refl;
    flushes = λ q. absurd (not_flushing q);
    once = omega arith;
  },
)
  where
    not_cleaned : false ≡ true → ⊥
    not_cleaned p = cc

    not_flushing : reading ≡ flushing → ⊥
    not_flushing p = cc

-- A request before anything is replied.
abbrev pub fresh_request : Request list_evbuffer
fresh_request = record (accepted []) {
  reply_status = status_none;
  is_websocket = false;
  ws_state = ws_connecting;
  ws_bev = false;
  self_ref = false;
  callbacks = off;
  owns_request = false;
}

pub fresh_request-IsSound : IsSound fresh_request
fresh_request-IsSound = (
  record { counted = refl; bounded = omega arith; no_backlog = λ q. refl },
  record {
    detached = λ q. refl;
    attached = λ q. absurd (not_reading q);
    flushes = λ q. absurd (not_flushing q);
    once = omega arith;
  },
)
  where
    not_reading : off ≡ reading → ⊥
    not_reading p = cc

    not_flushing : off ≡ flushing → ⊥
    not_flushing p = cc

-- Connection: keep-alive, Upgrade
abbrev pub browser_headers : Headers
browser_headers = record {
  upgrade = some (87 ∷ 101 ∷ 98 ∷ 83 ∷ 111 ∷ 99 ∷ 107 ∷ 101 ∷ 116 ∷ []);
  connection = some (44 ∷ 32 ∷ 85 ∷ 112 ∷ 103 ∷ 114 ∷ 97 ∷ 100 ∷ 101 ∷ []);
  ws_key = some (120 ∷ []);
  ws_version = some (49 ∷ 51 ∷ []);
}
