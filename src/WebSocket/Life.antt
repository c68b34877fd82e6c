-- ===== src/WebSocket/Life.antt =====
-- src/httpd_websocket.c: an accepted connection as steps of Lua, of libevent's callbacks and of the
-- event base's timer.
use luafan.Common.{
  ℕ, ◌-◌, ◌≡◌, refl, Bool, true, false, Option, none, some, List, [], ◌∷◌, if◌then◌else◌,
}
pub use luafan.Common.{if_both}
use luafan.Common.Int.{ℤ, pos, negsuc}
use luafan.WebSocket.EvBuffer.{EvBuffer}
use luafan.WebSocket.Frame.{Frame}
use luafan.WebSocket.Request.{Request, WsState, pop_from, frame_queue_pop}
use luafan.WebSocket.Events.{write_frame}
use luafan.WebSocket.Api.{
  Reply, hand_over, send_frame, websocket_send, send_control, websocket_ping, websocket_pong,
  websocket_close, websocket_receive,
}

module _ {E : EvBuffer} where
  -- One call of Lua.
  pub data Call : Request E → Request E → Type 0 where
    send :
        (r : Request E) (accepts : Bool) (bytes : List ℕ) (opcode : ℤ) (fin : Bool)
        → Call r (websocket_send r accepts bytes opcode fin).1
    ping :
        (r : Request E) (accepts : Bool) (payload : Option (List ℕ))
        → Call r (websocket_ping r accepts payload).1
    pong :
        (r : Request E) (accepts : Bool) (payload : Option (List ℕ))
        → Call r (websocket_pong r accepts payload).1
    close :
        (r : Request E) (code : ℤ) (reason : Option (List ℕ))
        → Call r (websocket_close r code reason).1
    receive : (r : Request E) → Call r (websocket_receive r).1

  -- Any number of calls.
  pub data Calls : Request E → Request E → Type 0 where
    done : (r : Request E) → Calls r r
    call : {r s t : Request E} → Call r s → Calls s t → Calls r t

  -- The fields that no call of Lua writes.
  pub record SameLife (r s : Request E) : Type 0 where
    pub bev : s.ws_bev ≡ r.ws_bev
    pub cbs : s.callbacks ≡ r.callbacks
    pub cleaning : s.ws_cleaning_up ≡ r.ws_cleaning_up
    pub scheduled : s.frees_scheduled ≡ r.frees_scheduled
    pub freed : s.connections_freed ≡ r.connections_freed
    pub self : s.self_ref ≡ r.self_ref
    pub websocket : s.is_websocket ≡ r.is_websocket

-- What the branch that is taken fulfils.
module _ {ℓ κ} {A : Type ℓ} (P : A → Type κ) where
  pub if_left : (b : Bool) (x y : A) → b ≡ true → P x → P (if b then x else y)
  if_left true x y q px = px
  if_left false x y q px = absurd (impossible q)
    where
      impossible : false ≡ true → ⊥
      impossible p = cc

  pub if_right : (b : Bool) (x y : A) → b ≡ false → P y → P (if b then x else y)
  if_right false x y q py = py
  if_right true x y q py = absurd (impossible q)
    where
      impossible : true ≡ false → ⊥
      impossible p = cc

module _ {E : EvBuffer} (r : Request E) where
  -- A change of the other fields.
  touched :
      (b : E.Buffer) (s : WsState) (frames : List Frame) (n : ℕ) (waiting mainthread : Bool)
      → SameLife r (record r {
        output = b;
        ws_state = s;
        frame_queue = frames;
        frame_queue_len = n;
        waiting = waiting;
        mainthread = mainthread;
      })
  touched b s frames n waiting mainthread = record {
    bev = refl;
    cbs = refl;
    cleaning = refl;
    scheduled = refl;
    freed = refl;
    self = refl;
    websocket = refl;
  }

  same : SameLife r r
  same = touched r.output r.ws_state r.frame_queue r.frame_queue_len r.waiting r.mainthread

  abbrev Keeps : Reply × Request E → Type 0
  Keeps x = SameLife r x.1

  written : (b : E.Buffer) → SameLife r (record r { output = b })
  written b = touched b r.ws_state r.frame_queue r.frame_queue_len r.waiting r.mainthread

  write_frame-SameLife : (o : Option E.Buffer) → SameLife r (write_frame r o)
  unfolding write_frame
  write_frame-SameLife none = same
  write_frame-SameLife (some b) = written (E.add_buffer r.output b)

  send_frame-SameLife : (accepts : Bool) (o : Option E.Buffer) → Keeps (send_frame r accepts o)
  unfolding send_frame
  send_frame-SameLife accepts none = same
  send_frame-SameLife true (some b) = write_frame-SameLife (some b)
  send_frame-SameLife false (some b) = same

  websocket_send-SameLife :
      (accepts : Bool) (bytes : List ℕ) (opcode : ℤ) (fin : Bool)
      → Keeps (websocket_send r accepts bytes opcode fin)
  unfolding websocket_send
  websocket_send-SameLife accepts bytes (negsuc n) fin = search (if_both Keeps, same)
  websocket_send-SameLife accepts bytes (pos opcode) fin =
      search (if_both Keeps, same, send_frame-SameLife)

  send_control-SameLife :
      (opcode : ℕ) (accepts : Bool) (payload : Option (List ℕ))
      → Keeps (send_control opcode r accepts payload)
  unfolding send_control
  send_control-SameLife opcode accepts payload = search (if_both Keeps, same, send_frame-SameLife)

  closing_state : (s : WsState) → SameLife r (record r { ws_state = s })
  closing_state s = touched r.output s r.frame_queue r.frame_queue_len r.waiting r.mainthread

  closing_written :
      (s : WsState) (o : Option E.Buffer) → SameLife r (record (write_frame r o) { ws_state = s })
  unfolding write_frame
  closing_written s none = closing_state s
  closing_written s (some b) =
      touched (E.add_buffer r.output b) s r.frame_queue r.frame_queue_len r.waiting r.mainthread

  websocket_close-SameLife :
      (code : ℤ) (reason : Option (List ℕ)) → Keeps (websocket_close r code reason)
  unfolding websocket_close
  websocket_close-SameLife code reason =
      search (if_both Keeps, same, closing_state, closing_written)

  now_waiting : SameLife r (record r { waiting = true; mainthread = true })
  now_waiting = touched r.output r.ws_state r.frame_queue r.frame_queue_len true true

  hand_over-SameLife : (frames : List Frame) → Keeps (hand_over (pop_from r frames))
  hand_over-SameLife [] = search (if_both Keeps, same, now_waiting)
  hand_over-SameLife (frame ∷ next) =
      touched r.output r.ws_state next (r.frame_queue_len - 1) r.waiting r.mainthread

  websocket_receive-SameLife : Keeps (websocket_receive r)
  unfolding websocket_receive frame_queue_pop
  websocket_receive-SameLife = search (if_both Keeps, same, hand_over-SameLife)

module _ {E : EvBuffer} where
  pub Call-SameLife : (r s : Request E) → Call r s → SameLife r s
  unfolding websocket_ping websocket_pong
  Call-SameLife r s (send _ accepts bytes opcode fin) =
      websocket_send-SameLife r accepts bytes opcode fin
  Call-SameLife r s (ping _ accepts payload) = send_control-SameLife r 0x9 accepts payload
  Call-SameLife r s (pong _ accepts payload) = send_control-SameLife r 0xa accepts payload
  Call-SameLife r s (close _ code reason) = websocket_close-SameLife r code reason
  Call-SameLife r s (receive _) = websocket_receive-SameLife r
