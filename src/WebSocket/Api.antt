-- ===== src/WebSocket/Api.antt =====
-- src/httpd_websocket.c: what Lua calls on an accepted connection. Lua's argument checks and
-- conversions come before these functions.
use luafan.Common.{
  ℕ, ◌-◌, ◌/◌, ◌^◌, bit_and, Bool, true, false, not, ◌&&◌, ◌||◌, Option, none, some, List, [], ◌∷◌,
  ltb, leb, if◌then◌else◌, length, take,
}
use luafan.Common.Int.{ℤ, pos, negsuc}
use luafan.ByteArray.State.{bytes_of}
use luafan.WebSocket.EvBuffer.{EvBuffer}
use luafan.WebSocket.Frame.{Frame, create_frame}
use luafan.WebSocket.Request.{
  WsState, ws_connecting, ws_open, ws_closing, ws_closed, Request, frame_queue_pop,
}
use luafan.WebSocket.Events.{write_frame, is_open, message_text}

-- The messages of `luaL_error`.
pub data ApiError : Type 0 where
  not_websocket : ApiError
  not_open : ApiError
  not_available : ApiError
  invalid_opcode : ApiError
  too_large : ApiError
  no_frame : ApiError
  already_waiting : ApiError

-- The strings of `websocket_state`.
pub data StateName : Type 0 where
  name_not_websocket : StateName
  name_connecting : StateName
  name_open : StateName
  name_closing : StateName
  name_closed : StateName

unfoldable pub state_name : WsState → StateName
state_name ws_connecting = name_connecting
state_name ws_open = name_open
state_name ws_closing = name_closing
state_name ws_closed = name_closed

-- What a call returns to Lua, or that it yields.
pub data Reply : Type 0 where
  raised : ApiError → Reply
  boolean : Bool → Reply
  received : List ℕ → ℕ → Reply
  nil_closed : Reply
  nil_not_open : Reply
  yielded : Reply

abbrev pub is_closed : WsState → Bool
is_closed s = elim s [ ws_closed ↦ true | _ ↦ false ]

-- `lua_tolstring` gives NULL and leaves the length at 0 where the argument is no string.
abbrev pub string_length : Option (List ℕ) → ℕ
string_length text = length (bytes_of text)

-- `close_payload`, from the code and the reason; 127 is its size.
unfoldable pub close_payload : ℤ → Option (List ℕ) → List ℕ
close_payload (negsuc n) reason = []
close_payload (pos close_code) reason =
    if leb 1000 close_code && leb close_code 4999
    then bit_and (close_code / 2 ^ 8) 0xff
      ∷ bit_and close_code 0xff
      ∷ take (127 - 2) (bytes_of reason)
    else []

module _ {E : EvBuffer} where
  -- `accepts` is whether `bufferevent_write_buffer` returns 0.
  unfoldable pub send_frame : Request E → Bool → Option E.Buffer → Reply × Request E
  send_frame r accepts none = (raised no_frame, r)
  send_frame r accepts (some frame) =
      (boolean accepts, if accepts then write_frame r (some frame) else r)

  unfoldable pub websocket_send : Request E → Bool → List ℕ → ℤ → Bool → Reply × Request E
  websocket_send r accepts bytes (negsuc n) fin =
      if not r.is_websocket || not (is_open r.ws_state)
      then (raised not_open, r)
      else if not r.ws_bev
      then (raised not_available, r)
      else (raised invalid_opcode, r)
  websocket_send r accepts bytes (pos opcode) fin =
      if not r.is_websocket || not (is_open r.ws_state)
      then (raised not_open, r)
      else if not r.ws_bev
      then (raised not_available, r)
      else if ltb 0xf opcode
      then (raised invalid_opcode, r)
      else send_frame r accepts (create_frame E opcode (some bytes) (length bytes) fin)

  -- The common body of the calls `ping` and `pong`, which differ in the opcode.
  unfoldable pub send_control : ℕ → Request E → Bool → Option (List ℕ) → Reply × Request E
  send_control opcode r accepts payload =
      if not r.is_websocket || not (is_open r.ws_state)
      then (raised not_open, r)
      else if not r.ws_bev
      then (raised not_available, r)
      else if ltb 125 (string_length payload)
      then (raised too_large, r)
      else send_frame r accepts (create_frame E opcode payload (string_length payload) true)

  unfoldable pub websocket_ping : Request E → Bool → Option (List ℕ) → Reply × Request E
  websocket_ping r accepts payload = send_control 0x9 r accepts payload

  unfoldable pub websocket_pong : Request E → Bool → Option (List ℕ) → Reply × Request E
  websocket_pong r accepts payload = send_control 0xa r accepts payload

  unfoldable pub websocket_close : Request E → ℤ → Option (List ℕ) → Reply × Request E
  websocket_close r close_code reason =
      let bytes = close_payload close_code reason in
      let payload = if ltb 0 (length bytes) then some bytes else none in
      let r1 = write_frame r (create_frame E 0x8 payload (length bytes) true) in
      if not r.is_websocket
      then (raised not_websocket, r)
      else if is_closed r.ws_state
      then (boolean true, r)
      else if not r.ws_bev
      then (boolean true, record r { ws_state = ws_closed })
      else (boolean true, record r1 { ws_state = ws_closing })

  -- The popped frame, or the wait for the next one.
  abbrev pub hand_over : Option Frame × Request E → Reply × Request E
  hand_over (some frame, r) = (received (message_text frame) frame.opcode, r)
  hand_over (none, r) =
      if r.waiting
      then (raised already_waiting, r)
      else (yielded, record r { waiting = true; mainthread = true })

  unfoldable pub websocket_receive : Request E → Reply × Request E
  websocket_receive r =
      if not r.is_websocket
      then (raised not_websocket, r)
      else if is_closed r.ws_state
      then (nil_closed, r)
      else if not (is_open r.ws_state)
      then (nil_not_open, r)
      else hand_over (frame_queue_pop r)

  unfoldable pub websocket_state : Request E → StateName
  websocket_state r = if not r.is_websocket then name_not_websocket else state_name r.ws_state
