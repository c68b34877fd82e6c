-- ===== src/WebSocket/Events.antt =====
-- src/httpd_websocket.c: the callbacks of the bufferevent, and the Lua coroutine that they resume.
use luafan.Common.{
  ℕ, zero, suc, Bool, true, false, not, ◌&&◌, ◌||◌, Option, none, some, List, [], ltb, ◌==◌,
  if◌then◌else◌,
}
use luafan.ByteArray.State.{Heap, is_null, bytes_of}
use luafan.WebSocket.EvBuffer.{EvBuffer}
use luafan.WebSocket.Frame.{Frame, incomplete, complete, failed, parse_frame, create_frame}
use luafan.WebSocket.Request.{
  WsState, ws_open, ws_closed, Request, frame_queue_push, connection_cleanup,
}

-- The messages of `ws_resume_with_error`.
pub data Failure : Type 0 where
  frame_parse_error : Failure
  peer_closed : Failure
  connection_closed : Failure
  connection_error : Failure

-- What a waiting coroutine is resumed with.
pub data Resumption : Type 0 where
  with_error : Failure → Resumption
  with_frame : List ℕ → ℕ → Resumption

-- `memset(&frame, 0, sizeof(frame))`
abbrev pub blank_frame : Frame
blank_frame = record {
  fin = false;
  rsv1 = false;
  rsv2 = false;
  rsv3 = false;
  opcode = 0;
  masked = false;
  payload_len = 0;
  mask_key = 0;
  payload = none;
}

-- What Lua sees of a frame's payload.
abbrev pub message_text : Frame → List ℕ
message_text frame =
    if not (is_null frame.payload) && ltb 0 frame.payload_len then bytes_of frame.payload else []

abbrev pub is_open : WsState → Bool
is_open s = elim s [ ws_open ↦ true | _ ↦ false ]

module _ {E : EvBuffer} where
  -- `bufferevent_write_buffer` of a frame, if one could be created; where the result is not looked at
  -- the write is taken to succeed.
  unfoldable pub write_frame : Request E → Option E.Buffer → Request E
  write_frame r none = r
  write_frame r (some frame) = record r { output = E.add_buffer r.output frame }

-- `resume` is the coroutine: the request once it has yielded or ended, and whether it has ended.
module _ {E : EvBuffer} (h : Heap) (connected : Bool)
    (resume : Resumption → Request E → Bool × Request E) where
  -- `FAN_RESUME` and the cleanup behind it
  unfoldable pub wake : Resumption → Request E → Request E
  wake what r =
      let (ended, r1) = resume what (record r { waiting = false }) in
      if ended then connection_cleanup connected r1 else r1

  unfoldable pub resume_with_error : Request E → Failure → Request E
  resume_with_error r errmsg = if r.waiting then wake (with_error errmsg) r else r

  unfoldable pub resume_with_frame : Request E → Frame → Request E
  resume_with_frame r frame =
      if r.waiting then wake (with_frame (message_text frame) frame.opcode) r else r

  -- A waiting coroutine learns that the connection is over; without one it is cleaned up.
  unfoldable pub give_up : Request E → Failure → Request E
  give_up r errmsg =
      if r.waiting then resume_with_error r errmsg else connection_cleanup connected r

  unfoldable pub on_ping : Request E → Frame → Request E
  on_ping r frame =
      if r.ws_bev && is_open r.ws_state
      then write_frame r (create_frame E 0xa frame.payload frame.payload_len true)
      else r

  unfoldable pub on_close : Request E → Frame → Request E
  on_close r frame =
      let r1 = record r { ws_state = ws_closed } in
      let r2 =
        if r1.ws_bev
        then write_frame r1 (create_frame E 0x8 frame.payload frame.payload_len true)
        else r1 in
      give_up r2 peer_closed

  unfoldable pub on_message : Request E → Frame → Bool × Request E
  on_message r frame =
      let r1 = resume_with_frame r frame in
      if r.waiting then (r1.ws_bev, r1) else (true, frame_queue_push h r frame)

  -- One round of the loop's switch: whether the loop goes on, and the request.
  unfoldable pub on_frame : Request E → Frame → Bool × Request E
  on_frame r frame =
      if frame.opcode == 0x9
      then (true, on_ping r frame)
      else if frame.opcode == 0xa
      then (true, r)
      else if frame.opcode == 0x8
      then (false, on_close r frame)
      else if frame.opcode == 0x1 || frame.opcode == 0x2
      then on_message r frame
      else (true, r)

  -- The loop of `ws_readcb`, for at most so many frames.
  unfoldable pub read_frames : ℕ → Request E → E.Buffer → Request E × E.Buffer
  read_frames zero r input = (r, input)
  read_frames (suc rounds) r input =
      let (rc, frame, input1) = parse_frame E h input blank_frame in
      let (more, r1) = on_frame r frame in
      let rest = read_frames rounds r1 input1 in
      if E.get_length input == 0 then (r, input) else elim rc [
        | incomplete ↦ (r, input1)
        | failed ↦ (give_up (record r { ws_state = ws_closed }) frame_parse_error, input1)
        | complete ↦ if more then rest else (r1, input1)
      ]

  -- Every frame takes a byte of the input at least.
  unfoldable pub readcb : Request E → E.Buffer → Request E × E.Buffer
  readcb r input = read_frames (E.get_length input) r input

  unfoldable pub eventcb : Request E → Bool → Bool → Request E
  eventcb r eof error =
      if eof || error
      then give_up (record r { ws_state = ws_closed })
          (if eof then connection_closed else connection_error)
      else r
