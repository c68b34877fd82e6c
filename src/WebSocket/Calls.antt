-- ===== src/WebSocket/Calls.antt =====
-- src/httpd_websocket.c: the calls of Lua while a coroutine waits.
use luafan.Common.{ℕ, ◌≡◌, refl, Bool, true, false, Option, none, some, List, [], ◌∷◌}
use luafan.Common.Int.{ℤ, pos, negsuc}
use luafan.WebSocket.EvBuffer.{EvBuffer}
use luafan.WebSocket.Frame.{Frame}
use luafan.WebSocket.Request.{Request, WsState, reading, pop_from, frame_queue_pop}
use luafan.WebSocket.Events.{write_frame}
use luafan.WebSocket.Api.{
  Reply, hand_over, send_frame, websocket_send, send_control, websocket_ping, websocket_pong,
  websocket_close, websocket_receive,
}
use luafan.WebSocket.Life.{Call, send, ping, pong, close, receive, if_both}

pub record IsWaiting {E : EvBuffer} (r : Request E) : Type 0 where
  pub waits : r.waiting ≡ true

-- No call lets go of a waiting coroutine.
module _ {E : EvBuffer} (r : Request E) (ok : IsWaiting r) where
  abbrev Keeps : Reply × Request E → Type 0
  Keeps x = IsWaiting x.1

  touched : (b : E.Buffer) (s : WsState) → IsWaiting (record r { output = b; ws_state = s })
  touched b s = record { waits = ok.waits }

  still : (o : Option E.Buffer) → IsWaiting (write_frame r o)
  unfolding write_frame
  still none = ok
  still (some b) = touched (E.add_buffer r.output b) r.ws_state

  closing_state : (s : WsState) → IsWaiting (record r { ws_state = s })
  closing_state s = touched r.output s

  closing_written :
      (s : WsState) (o : Option E.Buffer) → IsWaiting (record (write_frame r o) { ws_state = s })
  unfolding write_frame
  closing_written s none = closing_state s
  closing_written s (some b) = touched (E.add_buffer r.output b) s

  send_frame-Waits : (accepts : Bool) (o : Option E.Buffer) → Keeps (send_frame r accepts o)
  unfolding send_frame
  send_frame-Waits accepts none = ok
  send_frame-Waits true (some b) = still (some b)
  send_frame-Waits false (some b) = ok

  websocket_send-Waits :
      (accepts : Bool) (bytes : List ℕ) (opcode : ℤ) (fin : Bool)
      → Keeps (websocket_send r accepts bytes opcode fin)
  unfolding websocket_send
  websocket_send-Waits accepts bytes (negsuc n) fin = search (if_both Keeps, ok)
  websocket_send-Waits accepts bytes (pos opcode) fin = search (if_both Keeps, ok, send_frame-Waits)

  send_control-Waits :
      (opcode : ℕ) (accepts : Bool) (payload : Option (List ℕ))
      → Keeps (send_control opcode r accepts payload)
  unfolding send_control
  send_control-Waits opcode accepts payload = search (if_both Keeps, ok, send_frame-Waits)

  websocket_close-Waits :
      (code : ℤ) (reason : Option (List ℕ)) → Keeps (websocket_close r code reason)
  unfolding websocket_close
  websocket_close-Waits code reason = search (if_both Keeps, ok, closing_state, closing_written)

  hand_over-Waits : (frames : List Frame) → Keeps (hand_over (pop_from r frames))
  hand_over-Waits [] = if_both Keeps r.waiting ok record { waits = refl }
  hand_over-Waits (frame ∷ next) = record { waits = ok.waits }

  websocket_receive-Waits : Keeps (websocket_receive r)
  unfolding websocket_receive frame_queue_pop
  websocket_receive-Waits = search (if_both Keeps, ok, hand_over-Waits)

module _ {E : EvBuffer} where
  pub Call-IsWaiting : (r s : Request E) → Call r s → IsWaiting r → IsWaiting s
  unfolding websocket_ping websocket_pong
  Call-IsWaiting r s (send _ accepts bytes opcode fin) ok =
      websocket_send-Waits r ok accepts bytes opcode fin
  Call-IsWaiting r s (ping _ accepts payload) ok = send_control-Waits r ok 0x9 accepts payload
  Call-IsWaiting r s (pong _ accepts payload) ok = send_control-Waits r ok 0xa accepts payload
  Call-IsWaiting r s (close _ code reason) ok = websocket_close-Waits r ok code reason
  Call-IsWaiting r s (receive _) ok = websocket_receive-Waits r ok

  -- No callback is left that would read: what remains is the flush, which does nothing, or the timer.
  pub record IsForgotten (r : Request E) : Type 0 where
    pub cleaning : r.ws_cleaning_up ≡ true
    pub deaf : r.callbacks ≡ reading → ⊥
    pub waits : IsWaiting r
