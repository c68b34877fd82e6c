-- ===== src/WebSocket/Cleanup.antt =====
-- src/httpd_websocket.c: the queue, the cleanup and the flush callbacks, on a sound request.
use luafan.Common.{
  ℕ, ◌+◌, ◌-◌, ◌≤◌, ◌<◌, ◌≡◌, refl, ◌∙◌, sym, ap, Bool, true, false, not, ◌&&◌, Option, none, some,
  [], ◌∷◌, ◌++◌, if◌then◌else◌, leb, ◌==◌, length, length-append, arith, inl, inr, Bool-cases,
}
use luafan.ByteArray.State.{Heap}
use luafan.WebSocket.EvBuffer.{EvBuffer}
use luafan.WebSocket.Frame.{Frame}
use luafan.WebSocket.Request.{
  Request, WsState, ws_closed, reading, flushing, off, max_queued_frames, frame_queue_push,
  frame_queue_clear, flush_writecb, flush_eventcb, deferred_free_cb, free_connection, schedule_free,
  connection_cleanup, release, detach, clear_refs,
}
use luafan.WebSocket.Events.{write_frame}
use luafan.WebSocket.Life.{if_both, if_left, if_right}
use luafan.WebSocket.Sound.{IsQueued, IsAttached, IsSound, other_fields}

not_reading : {A : Type 0} → flushing ≡ reading → A
not_reading q = absurd (impossible q)
  where
    impossible : flushing ≡ reading → ⊥
    impossible p = cc

off_reading : {A : Type 0} → off ≡ reading → A
off_reading q = absurd (impossible q)
  where
    impossible : off ≡ reading → ⊥
    impossible p = cc

off_flushing : {A : Type 0} → off ≡ flushing → A
off_flushing q = absurd (impossible q)
  where
    impossible : off ≡ flushing → ⊥
    impossible p = cc

module _ {E : EvBuffer} where
  -- A change of the output, of the state and of who waits.
  pub outside :
      (r : Request E) (b : E.Buffer) (s : WsState)
      → IsSound r
      → IsSound (record r { output = b; ws_state = s })
  outside r b s (q, a) = (
    other_fields r q b s,
    record { detached = a.detached; attached = a.attached; flushes = a.flushes; once = a.once },
  )

  pub written : (r : Request E) (o : Option E.Buffer) → IsSound r → IsSound (write_frame r o)
  unfolding write_frame
  written r none ok = ok
  written r (some b) ok = outside r (E.add_buffer r.output b) r.ws_state ok

  pub closed_sound : (r : Request E) → IsSound r → IsSound (record r { ws_state = ws_closed })
  closed_sound r ok = outside r r.output ws_closed ok

  pub woken : (r : Request E) → IsSound r → IsSound (record r { waiting = false })
  woken r (q, a) = (
    record { counted = q.counted; bounded = q.bounded; no_backlog = λ p. absurd (impossible p) },
    record { detached = a.detached; attached = a.attached; flushes = a.flushes; once = a.once },
  )
    where
      impossible : false ≡ true → ⊥
      impossible p = cc

  emptied : (r : Request E) → r.frame_queue_len ≡ 0 → r.frame_queue ≡ [] → IsQueued r
  emptied r none_left e = record {
    counted = none_left ∙ sym (ap (length {0}) e);
    bounded = omega (arith, none_left);
    no_backlog = λ q. e;
  }

  let_go :
      (r : Request E)
      → r.ws_bev ≡ false
      → r.ws_cleaning_up ≡ true
      → (r.callbacks ≡ reading → r.ws_bev ≡ true)
      → r.frees_scheduled + r.connections_freed ≤ 1
      → IsAttached r
  let_go r gone cleaning attached once = record {
    detached = λ q. gone;
    attached = attached;
    flushes = λ q. cleaning;
    once =
        let weight : Bool → ℕ = λ b. if b then 1 else 0 in
        let limit = ap weight cleaning in omega (arith, once, limit);
  }

  released :
      (connected : Bool) (r : Request E)
      → IsSound r
      → r.ws_cleaning_up ≡ false
      → IsSound (release connected (frame_queue_clear (record r { ws_cleaning_up = true })))
  unfolding release detach frame_queue_clear schedule_free free_connection
  released connected r (q, a) fresh =
      let none_yet : r.frees_scheduled + r.connections_freed ≤ 0 = ground (arith, a.once) in
      elim (Bool-cases r.ws_bev) [
        | inl bev ↦ if_left IsSound r.ws_bev _ _ bev (
            if_both IsSound (E.get_length r.output == 0)
              (emptied _ refl refl, let_go _ refl refl off_reading (omega arith))
              (emptied _ refl refl, let_go _ refl refl not_reading (omega arith)))
        | inr gone ↦ if_right IsSound r.ws_bev _ _ gone (
            if_both IsSound (r.owns_request && r.req)
              (emptied _ refl refl, let_go _ gone refl a.attached (ground arith))
              (emptied _ refl refl, let_go _ gone refl a.attached (omega arith)))
      ]

  pub connection_cleanup-IsSound :
      (connected : Bool) (r : Request E) → IsSound r → IsSound (connection_cleanup connected r)
  unfolding connection_cleanup
  connection_cleanup-IsSound connected r ok = elim (Bool-cases r.ws_cleaning_up) [
    | inl on ↦ if_left IsSound r.ws_cleaning_up _ _ on ok
    | inr fresh ↦ if_right IsSound r.ws_cleaning_up _ _ fresh (released connected r ok fresh)
  ]

  pushed :
      (r : Request E) (frame : Frame)
      → IsSound r
      → r.waiting ≡ false
      → leb max_queued_frames r.frame_queue_len ≡ false
      → IsSound (record r {
        frame_queue = r.frame_queue ++ (frame ∷ []);
        frame_queue_len = r.frame_queue_len + 1;
      })
  pushed r frame (q, a) idle room = (
    record {
      counted = omega (arith, q.counted, length-append r.frame_queue (frame ∷ []));
      bounded = ground arith;
      no_backlog = λ p. absurd (impossible (sym idle ∙ p));
    },
    record { detached = a.detached; attached = a.attached; flushes = a.flushes; once = a.once },
  )
    where
      impossible : false ≡ true → ⊥
      impossible p = cc

  pub push-IsSound :
      (h : Heap) (r : Request E) (frame : Frame)
      → IsSound r
      → r.waiting ≡ false
      → IsSound (frame_queue_push h r frame)
  unfolding frame_queue_push
  push-IsSound h r frame ok idle = elim (Bool-cases (leb max_queued_frames r.frame_queue_len)) [
    | inl full ↦ if_left IsSound _ _ _ full ok
    | inr room ↦ if_right IsSound _ _ _ room (if_both IsSound _ ok (pushed r frame ok idle room))
  ]

  pub deferred_free_cb-IsSound :
      (connected : Bool) (r : Request E)
      → IsSound r
      → 0 < r.frees_scheduled
      → IsSound (deferred_free_cb connected (record r { frees_scheduled = r.frees_scheduled - 1 }))
  unfolding deferred_free_cb free_connection
  deferred_free_cb-IsSound connected r (q, a) due =
      let cleaning : r.ws_cleaning_up ≡ true = ground (arith, a.once) in
      let passes : not r.ws_cleaning_up ≡ false = ap not cleaning in
      let limit : r.frees_scheduled + r.connections_freed ≤ 1 = ground (arith, a.once) in
      let bev = a.detached cleaning in
      let P : Request E → Type 0 =
        λ x. IsSound (clear_refs (record x { req = false; owns_request = false })) in
      if_right IsSound (not r.ws_cleaning_up) _ _ passes (
        if_both P (r.owns_request && r.req)
          (
            record { counted = q.counted; bounded = q.bounded; no_backlog = q.no_backlog },
            let_go _ bev cleaning a.attached (ground arith),
          )
          (
            record { counted = q.counted; bounded = q.bounded; no_backlog = q.no_backlog },
            let_go _ bev cleaning a.attached (omega arith),
          ))

  pub flushes-IsSound :
      (r : Request E) (ends : Bool)
      → IsSound r
      → r.callbacks ≡ flushing
      → IsSound (flush_writecb r) × IsSound (flush_eventcb r ends)
  unfolding flush_writecb flush_eventcb
  flushes-IsSound r ends ok set =
      let cleaning = ok.1.flushes set in
      (
        if_left IsSound r.ws_cleaning_up _ _ cleaning ok,
        if_left IsSound r.ws_cleaning_up _ _ cleaning ok,
      )
