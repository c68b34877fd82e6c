-- ===== src/WebSocket/Invariant.antt =====
-- src/httpd_websocket.c: the consistency of a connection's fields along its steps.
use luafan.Common.{ℕ, zero, suc, Bool, false, ◌||◌, ◌==◌, inl, inr, Bool-cases}
use luafan.ByteArray.State.{Heap}
use luafan.WebSocket.EvBuffer.{EvBuffer}
use luafan.WebSocket.Frame.{Frame, Rc, incomplete, complete, failed, parse_frame}
use luafan.WebSocket.Request.{Request}
use luafan.WebSocket.Events.{
  Resumption, Failure, blank_frame, wake, resume_with_error, resume_with_frame, give_up, on_ping,
  on_close, on_message, on_frame, read_frames, readcb, eventcb,
}
use luafan.WebSocket.Life.{Calls, if_both, if_left, if_right}
use luafan.WebSocket.Steps.{
  Step, sent, called, readable, ended, flushed, flush_ended, timer, Steps, stay, step,
}
use luafan.WebSocket.Sound.{IsSound, Call-IsSound, Calls-IsSound}
use luafan.WebSocket.Cleanup.{
  outside, written, closed_sound, woken, connection_cleanup-IsSound, push-IsSound,
  deferred_free_cb-IsSound, flushes-IsSound,
}

-- The three ways on from a parsed frame.
Rc-all {ℓ} :
    {A : Type ℓ} (P : A → Type 0) (rc : Rc) (x y z : A)
    → P x
    → P y
    → P z
    → P (elim rc [ incomplete ↦ x | failed ↦ y | complete ↦ z ])
Rc-all P incomplete x y z px py pz = px
Rc-all P failed x y z px py pz = py
Rc-all P complete x y z px py pz = pz

-- A coroutine reaches the request by the calls only.
module _ {E : EvBuffer} (h : Heap) (connected : Bool)
    (resume : Resumption → Request E → Bool × Request E)
    (calls_only : (what : Resumption) (r : Request E) → Calls r (resume what r).1) where
  wake-IsSound :
      (what : Resumption) (r : Request E) → IsSound r → IsSound (wake h connected resume what r)
  unfolding wake
  wake-IsSound what r ok =
      let r0 : Request E = record r { waiting = false } in
      let after = Calls-IsSound r0 (resume what r0).1 (calls_only what r0) (woken r ok) in
      if_both IsSound (resume what r0).0 (connection_cleanup-IsSound connected _ after) after

  give_up-IsSound :
      (r : Request E) (errmsg : Failure) → IsSound r → IsSound (give_up h connected resume r errmsg)
  unfolding give_up resume_with_error
  give_up-IsSound r errmsg ok =
      if_both IsSound r.waiting (if_both IsSound r.waiting (wake-IsSound _ r ok) ok)
        (connection_cleanup-IsSound connected r ok)

  on_ping-IsSound :
      (r : Request E) (frame : Frame) → IsSound r → IsSound (on_ping h connected resume r frame)
  unfolding on_ping
  on_ping-IsSound r frame ok = if_both IsSound _ (written r _ ok) ok

  on_close-IsSound :
      (r : Request E) (frame : Frame) → IsSound r → IsSound (on_close h connected resume r frame)
  unfolding on_close
  on_close-IsSound r frame ok =
      let shut = closed_sound r ok in
      give_up-IsSound _ _ (if_both IsSound r.ws_bev (written _ _ shut) shut)

  on_message-IsSound :
      (r : Request E) (frame : Frame)
      → IsSound r
      → IsSound (on_message h connected resume r frame).1
  unfolding on_message resume_with_frame
  on_message-IsSound r frame ok =
      let P : Bool × Request E → Type 0 = λ x. IsSound x.1 in
      elim (Bool-cases r.waiting) [
        | inl waits ↦
            if_left P r.waiting _ _ waits (if_both IsSound r.waiting (wake-IsSound _ r ok) ok)
        | inr idle ↦ if_right P r.waiting _ _ idle (push-IsSound h r frame ok idle)
      ]

  on_frame-IsSound :
      (r : Request E) (frame : Frame) → IsSound r → IsSound (on_frame h connected resume r frame).1
  unfolding on_frame
  on_frame-IsSound r frame ok =
      let P : Bool × Request E → Type 0 = λ x. IsSound x.1 in
      if_both P (frame.opcode == 0x9) (on_ping-IsSound r frame ok) (
        if_both P (frame.opcode == 0xa) ok (
          if_both P (frame.opcode == 0x8) (on_close-IsSound r frame ok) (
            if_both P (frame.opcode == 0x1 || frame.opcode == 0x2) (on_message-IsSound r frame ok)
              ok)))

  read_frames-IsSound :
      (rounds : ℕ) (r : Request E) (input : E.Buffer)
      → IsSound r
      → IsSound (read_frames h connected resume rounds r input).0
  unfolding read_frames
  read_frames-IsSound zero r input ok = ok
  read_frames-IsSound (suc rounds) r input ok =
      let P : Request E × E.Buffer → Type 0 = λ x. IsSound x.0 in
      let (rc, frame, input1) = parse_frame E h input blank_frame in
      let next = on_frame-IsSound r frame ok in
      if_both P (E.get_length input == 0) ok (
        Rc-all P rc _ _ _ ok (give_up-IsSound _ _ (closed_sound r ok)) (
          if_both P (on_frame h connected resume r frame).0
            (read_frames-IsSound rounds _ input1 next) next))

  eventcb-IsSound :
      (r : Request E) (eof error : Bool)
      → IsSound r
      → IsSound (eventcb h connected resume r eof error)
  unfolding eventcb
  eventcb-IsSound r eof error ok =
      if_both IsSound (eof || error) (give_up-IsSound _ _ (closed_sound r ok)) ok

  Step-IsSound : (r s : Request E) → Step h connected resume r s → IsSound r → IsSound s
  unfolding readcb
  Step-IsSound r s (sent _ b) ok = outside r b r.ws_state ok
  Step-IsSound r s (called c) ok = Call-IsSound r s c ok
  Step-IsSound r s (readable _ input set) ok = read_frames-IsSound (E.get_length input) r input ok
  Step-IsSound r s (ended _ eof error set) ok = eventcb-IsSound r eof error ok
  Step-IsSound r s (flushed _ set) ok = (flushes-IsSound r false ok set).0
  Step-IsSound r s (flush_ended _ ends set) ok = (flushes-IsSound r ends ok set).1
  Step-IsSound r s (timer _ due) ok = deferred_free_cb-IsSound connected r ok due

  -- Where a coroutine reaches the request by its calls only, any steps from a sound request lead to
  -- a sound one: the queue is counted and has at most 64 frames, none of them while a coroutine
  -- waits; the connection is read only before the cleanup, and is freed at most once, after it.
  pub Steps-IsSound : (r s : Request E) → Steps h connected resume r s → IsSound r → IsSound s
  Steps-IsSound r s (stay _) ok = ok
  Steps-IsSound r t (step {s = s} first rest) ok =
      Steps-IsSound s t rest (Step-IsSound r s first ok)
