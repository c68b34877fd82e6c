-- ===== src/WebSocket/Waiting.antt =====
-- src/httpd_websocket.c: a coroutine that calls receive on a connection that was cleaned up.
use luafan.Common.{◌≡◌, refl, ◌∙◌, sym, ap, Bool, true, false, not, ◌&&◌, List, [], ◌∷◌, ◌==◌}
use luafan.ByteArray.State.{Heap}
use luafan.WebSocket.EvBuffer.{EvBuffer}
use luafan.WebSocket.Frame.{Frame}
use luafan.WebSocket.Request.{
  Request, WsState, ws_connecting, ws_open, ws_closing, ws_closed, reading, flushing, off, pop_from,
  frame_queue_pop, flush_writecb, flush_eventcb, deferred_free_cb, free_connection,
  connection_cleanup, release, detach, schedule_free, frame_queue_clear, clear_refs,
}
use luafan.WebSocket.Events.{Resumption, is_open}
use luafan.WebSocket.Api.{Reply, yielded, hand_over, websocket_receive, is_closed}
use luafan.WebSocket.Life.{Call-SameLife, if_both, if_left, if_right}
use luafan.WebSocket.Steps.{
  Step, sent, called, readable, ended, flushed, flush_ended, timer, Steps, stay, step,
}
use luafan.WebSocket.Calls.{IsForgotten, Call-IsWaiting}

module _ {E : EvBuffer} (h : Heap) (connected : Bool)
    (resume : Resumption → Request E → Bool × Request E) where
  Step-IsForgotten : (r s : Request E) → Step h connected resume r s → IsForgotten r → IsForgotten s
  unfolding flush_writecb flush_eventcb deferred_free_cb free_connection
  Step-IsForgotten r s (sent _ b) f = record {
    cleaning = f.cleaning;
    deaf = f.deaf;
    waits = record { waits = f.waits.waits };
  }
  Step-IsForgotten r s (called c) f =
      let same = Call-SameLife r s c in
      record {
        cleaning = same.cleaning ∙ f.cleaning;
        deaf = λ q. f.deaf (sym same.cbs ∙ q);
        waits = Call-IsWaiting r s c f.waits;
      }
  Step-IsForgotten r s (readable _ input set) f = absurd (f.deaf set)
  Step-IsForgotten r s (ended _ eof error set) f = absurd (f.deaf set)
  Step-IsForgotten r s (flushed _ set) f = if_left IsForgotten r.ws_cleaning_up _ _ f.cleaning f
  Step-IsForgotten r s (flush_ended _ ends set) f =
      if_left IsForgotten r.ws_cleaning_up _ _ f.cleaning f
  Step-IsForgotten r s (timer _ due) f =
      let P : Request E → Type 0 =
        λ x. IsForgotten (clear_refs (record x { req = false; owns_request = false })) in
      if_right IsForgotten (not r.ws_cleaning_up) _ _ (ap not f.cleaning) (
        if_both P (r.owns_request && r.req)
          record { cleaning = f.cleaning; deaf = f.deaf; waits = record { waits = f.waits.waits } }
          record { cleaning = f.cleaning; deaf = f.deaf; waits = record { waits = f.waits.waits } })

  Steps-IsForgotten :
      (r s : Request E) → Steps h connected resume r s → IsForgotten r → IsForgotten s
  Steps-IsForgotten r s (stay _) f = f
  Steps-IsForgotten r t (step {s = s} first rest) f =
      Steps-IsForgotten s t rest (Step-IsForgotten r s first f)

open_not_closed : (s : WsState) → is_open s ≡ true → is_closed s ≡ false
open_not_closed ws_connecting q = refl
open_not_closed ws_open q = refl
open_not_closed ws_closing q = refl
open_not_closed ws_closed q = absurd (impossible q)
  where
    impossible : false ≡ true → ⊥
    impossible p = cc

module _ {E : EvBuffer} where
  abbrev Forgets : Reply × Request E → Type 0
  Forgets x = (x.0 ≡ yielded) × IsForgotten x.1

  -- An open connection without a backlog and without a reader lets the caller wait.
  forgotten_reader :
      (r : Request E)
      → r.is_websocket ≡ true
      → is_open r.ws_state ≡ true
      → r.waiting ≡ false
      → r.frame_queue ≡ []
      → r.ws_cleaning_up ≡ true
      → (r.callbacks ≡ reading → ⊥)
      → Forgets (websocket_receive r)
  unfolding websocket_receive frame_queue_pop
  forgotten_reader r ws is_opened idle empty cleaning deaf =
      if_right Forgets (not r.is_websocket) _ _ (ap not ws) (
        if_right Forgets (is_closed r.ws_state) _ _ (open_not_closed r.ws_state is_opened) (
          if_right Forgets (not (is_open r.ws_state)) _ _ (ap not is_opened)
            (handed r.frame_queue empty)))
    where
      impossible : {x : Frame} {xs : List Frame} → x ∷ xs ≡ [] → ⊥
      impossible p = cc

      handed : (frames : List Frame) → frames ≡ [] → Forgets (hand_over (pop_from r frames))
      handed [] e =
          if_right Forgets r.waiting _ _ idle
            (refl, record { cleaning = cleaning; deaf = deaf; waits = record { waits = refl } })
      handed (frame ∷ next) e = absurd (impossible e)

  cleaned_reader :
      (connected : Bool) (r : Request E)
      → r.is_websocket ≡ true
      → is_open r.ws_state ≡ true
      → r.waiting ≡ false
      → r.ws_cleaning_up ≡ false
      → r.ws_bev ≡ true
      → Forgets (websocket_receive (connection_cleanup connected r))
  unfolding connection_cleanup release detach frame_queue_clear schedule_free
  cleaned_reader connected r ws is_opened idle fresh bev =
      let P : Request E → Type 0 = λ x. Forgets (websocket_receive x) in
      if_right P r.ws_cleaning_up _ _ fresh (
        if_left P r.ws_bev _ _ bev (
          if_both P (E.get_length r.output == 0)
            (forgotten_reader _ ws is_opened idle refl refl off_deaf)
            (forgotten_reader _ ws is_opened idle refl refl flushing_deaf)))
    where
      off_deaf : off ≡ reading → ⊥
      off_deaf p = cc

      flushing_deaf : flushing ≡ reading → ⊥
      flushing_deaf p = cc

-- After the cleanup of an attached connection that no coroutine waits on and whose state is still
-- open, receive yields, and whatever steps follow, its caller still waits.
pub receive_never_resumed :
    {E : EvBuffer} (h : Heap) (connected : Bool)
    (resume : Resumption → Request E → Bool × Request E) (r s : Request E)
    → r.is_websocket ≡ true
    → is_open r.ws_state ≡ true
    → r.waiting ≡ false
    → r.ws_cleaning_up ≡ false
    → r.ws_bev ≡ true
    → Steps h connected resume (websocket_receive (connection_cleanup connected r)).1 s
    → ((websocket_receive (connection_cleanup connected r)).0 ≡ yielded) × (s.waiting ≡ true)
receive_never_resumed h connected resume r s ws is_opened idle fresh bev steps =
    let (yields, forgotten) = cleaned_reader connected r ws is_opened idle fresh bev in
    (yields, (Steps-IsForgotten h connected resume _ s steps forgotten).waits.waits)
