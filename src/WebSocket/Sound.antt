-- ===== src/WebSocket/Sound.antt =====
-- src/httpd_websocket.c: the consistency of a connection's fields, and the calls of Lua.
use luafan.Common.{
  ℕ, ◌+◌, ◌≤◌, ◌≡◌, refl, ◌∙◌, sym, ap, Bool, true, false, Option, none, some, List, [], ◌∷◌,
  if◌then◌else◌, length, arith,
}
use luafan.Common.Int.{ℤ, pos, negsuc}
use luafan.WebSocket.EvBuffer.{EvBuffer}
use luafan.WebSocket.Frame.{Frame}
use luafan.WebSocket.Request.{
  Request, WsState, reading, flushing, max_queued_frames, pop_from, frame_queue_pop,
}
use luafan.WebSocket.Events.{write_frame}
use luafan.WebSocket.Api.{
  Reply, hand_over, send_frame, websocket_send, send_control, websocket_ping, websocket_pong,
  websocket_close, websocket_receive,
}
use luafan.WebSocket.Life.{
  Call, Calls, send, ping, pong, close, receive, done, call, SameLife, Call-SameLife, if_both,
}

module _ {E : EvBuffer} where
  -- The queue is counted and bounded, and no frame is kept from a waiting coroutine.
  pub record IsQueued (r : Request E) : Type 0 where
    pub counted : r.frame_queue_len ≡ length r.frame_queue
    pub bounded : r.frame_queue_len ≤ max_queued_frames
    pub no_backlog : r.waiting ≡ true → r.frame_queue ≡ []

  -- The connection is read only before the cleanup, and is freed at most once, after it.
  pub record IsAttached (r : Request E) : Type 0 where
    pub detached : r.ws_cleaning_up ≡ true → r.ws_bev ≡ false
    pub attached : r.callbacks ≡ reading → r.ws_bev ≡ true
    pub flushes : r.callbacks ≡ flushing → r.ws_cleaning_up ≡ true
    pub once : r.frees_scheduled + r.connections_freed ≤ (if r.ws_cleaning_up then 1 else 0)

  pub SameLife-IsAttached : (r s : Request E) → SameLife r s → IsAttached r → IsAttached s
  SameLife-IsAttached r s same a = record {
    detached = λ q. same.bev ∙ a.detached (sym same.cleaning ∙ q);
    attached = λ q. same.bev ∙ a.attached (sym same.cbs ∙ q);
    flushes = λ q. same.cleaning ∙ a.flushes (sym same.cbs ∙ q);
    once =
        let weight : Bool → ℕ = λ b. if b then 1 else 0 in
        let limit = ap weight same.cleaning in
        omega (arith, same.scheduled, same.freed, a.once, limit);
  }

module _ {E : EvBuffer} (r : Request E) (ok : IsQueued r) where
  abbrev Keeps : Reply × Request E → Type 0
  Keeps x = IsQueued x.1

  -- A change of the other fields.
  pub other_fields : (b : E.Buffer) (s : WsState) → IsQueued (record r { output = b; ws_state = s })
  other_fields b s = record {
    counted = ok.counted;
    bounded = ok.bounded;
    no_backlog = ok.no_backlog;
  }

  pub write_frame-IsQueued : (o : Option E.Buffer) → IsQueued (write_frame r o)
  unfolding write_frame
  write_frame-IsQueued none = ok
  write_frame-IsQueued (some b) = other_fields (E.add_buffer r.output b) r.ws_state

  send_frame-IsQueued : (accepts : Bool) (o : Option E.Buffer) → Keeps (send_frame r accepts o)
  unfolding send_frame
  send_frame-IsQueued accepts none = ok
  send_frame-IsQueued true (some b) = write_frame-IsQueued (some b)
  send_frame-IsQueued false (some b) = ok

  websocket_send-IsQueued :
      (accepts : Bool) (bytes : List ℕ) (opcode : ℤ) (fin : Bool)
      → Keeps (websocket_send r accepts bytes opcode fin)
  unfolding websocket_send
  websocket_send-IsQueued accepts bytes (negsuc n) fin = search (if_both Keeps, ok)
  websocket_send-IsQueued accepts bytes (pos opcode) fin =
      search (if_both Keeps, ok, send_frame-IsQueued)

  send_control-IsQueued :
      (opcode : ℕ) (accepts : Bool) (payload : Option (List ℕ))
      → Keeps (send_control opcode r accepts payload)
  unfolding send_control
  send_control-IsQueued opcode accepts payload = search (if_both Keeps, ok, send_frame-IsQueued)

  closing_state : (s : WsState) → IsQueued (record r { ws_state = s })
  closing_state s = other_fields r.output s

  closing_written :
      (s : WsState) (o : Option E.Buffer) → IsQueued (record (write_frame r o) { ws_state = s })
  unfolding write_frame
  closing_written s none = closing_state s
  closing_written s (some b) = other_fields (E.add_buffer r.output b) s

  websocket_close-IsQueued :
      (code : ℤ) (reason : Option (List ℕ)) → Keeps (websocket_close r code reason)
  unfolding websocket_close
  websocket_close-IsQueued code reason = search (if_both Keeps, ok, closing_state, closing_written)

  hand_over-IsQueued :
      (frames : List Frame) → r.frame_queue ≡ frames → Keeps (hand_over (pop_from r frames))
  hand_over-IsQueued [] e =
      if_both Keeps r.waiting ok
        record { counted = ok.counted; bounded = ok.bounded; no_backlog = λ q. e }
  hand_over-IsQueued (frame ∷ next) e =
      let one_more = ap (length {0}) e in
      record {
        counted = omega (arith, ok.counted, one_more);
        bounded = omega (arith, ok.bounded);
        no_backlog = λ q. absurd (impossible (sym (ok.no_backlog q) ∙ e));
      }
    where
      impossible : {x : Frame} {xs : List Frame} → [] ≡ x ∷ xs → ⊥
      impossible p = cc

  popped-IsQueued : Keeps (hand_over (pop_from r r.frame_queue))
  popped-IsQueued = hand_over-IsQueued r.frame_queue refl

  websocket_receive-IsQueued : Keeps (websocket_receive r)
  unfolding websocket_receive frame_queue_pop
  websocket_receive-IsQueued = search (if_both Keeps, ok, popped-IsQueued)

module _ {E : EvBuffer} where
  Call-IsQueued : (r s : Request E) → Call r s → IsQueued r → IsQueued s
  unfolding websocket_ping websocket_pong
  Call-IsQueued r s (send _ accepts bytes opcode fin) ok =
      websocket_send-IsQueued r ok accepts bytes opcode fin
  Call-IsQueued r s (ping _ accepts payload) ok = send_control-IsQueued r ok 0x9 accepts payload
  Call-IsQueued r s (pong _ accepts payload) ok = send_control-IsQueued r ok 0xa accepts payload
  Call-IsQueued r s (close _ code reason) ok = websocket_close-IsQueued r ok code reason
  Call-IsQueued r s (receive _) ok = websocket_receive-IsQueued r ok

  abbrev pub IsSound : Request E → Type 0
  IsSound r = IsQueued r × IsAttached r

  pub Call-IsSound : (r s : Request E) → Call r s → IsSound r → IsSound s
  Call-IsSound r s c (q, a) =
      (Call-IsQueued r s c q, SameLife-IsAttached r s (Call-SameLife r s c) a)

  pub Calls-IsSound : (r s : Request E) → Calls r s → IsSound r → IsSound s
  Calls-IsSound r s (done _) ok = ok
  Calls-IsSound r t (call {s = s} first rest) ok =
      Calls-IsSound s t rest (Call-IsSound r s first ok)
