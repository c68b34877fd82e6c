-- ===== src/WebSocket/Steps.antt =====
-- src/httpd_websocket.c: the steps that an accepted connection can take, and those that are left to
-- it once it is cleaned up.
use luafan.Common.{ℕ, ◌-◌, ◌<◌, ◌≡◌, refl, ◌∙◌, sym, Bool, true, false, ◌==◌, arith}
use luafan.ByteArray.State.{Heap}
use luafan.WebSocket.EvBuffer.{EvBuffer}
use luafan.WebSocket.Request.{
  Request, reading, flushing, flush_writecb, flush_eventcb, deferred_free_cb, connection_cleanup,
  release, detach, frame_queue_clear,
}
use luafan.WebSocket.Events.{Resumption, readcb, eventcb}
use luafan.WebSocket.Life.{Call, SameLife, Call-SameLife, if_left, if_right}

module _ {E : EvBuffer} (h : Heap) (connected : Bool)
    (resume : Resumption → Request E → Bool × Request E) where
  -- libevent sends output at any time; it calls the callbacks that are set, and the timer's
  -- callback once for each time that it was scheduled.
  pub data Step : Request E → Request E → Type 0 where
    sent : (r : Request E) (b : E.Buffer) → Step r (record r { output = b })
    called : {r s : Request E} → Call r s → Step r s
    readable :
        (r : Request E) (input : E.Buffer)
        → r.callbacks ≡ reading
        → Step r (readcb h connected resume r input).0
    ended :
        (r : Request E) (eof error : Bool)
        → r.callbacks ≡ reading
        → Step r (eventcb h connected resume r eof error)
    flushed : (r : Request E) → r.callbacks ≡ flushing → Step r (flush_writecb r)
    flush_ended :
        (r : Request E) (ends : Bool) → r.callbacks ≡ flushing → Step r (flush_eventcb r ends)
    timer :
        (r : Request E)
        → 0 < r.frees_scheduled
        → Step r (deferred_free_cb connected (record r { frees_scheduled = r.frees_scheduled - 1 }))

  pub data Steps : Request E → Request E → Type 0 where
    stay : (r : Request E) → Steps r r
    step : {r s t : Request E} → Step r s → Steps s t → Steps r t

  -- What holds of a request whose output was not flushed when it was cleaned up.
  pub record IsStuck (freed : ℕ) (self : Bool) (r : Request E) : Type 0 where
    pub cbs : r.callbacks ≡ flushing
    pub cleaning : r.ws_cleaning_up ≡ true
    pub scheduled : r.frees_scheduled ≡ 0
    pub count : r.connections_freed ≡ freed
    pub held : r.self_ref ≡ self

  SameLife-IsStuck :
      (n : ℕ) (self : Bool) (r s : Request E) → SameLife r s → IsStuck n self r → IsStuck n self s
  SameLife-IsStuck n self r s same stuck = record {
    cbs = same.cbs ∙ stuck.cbs;
    cleaning = same.cleaning ∙ stuck.cleaning;
    scheduled = same.scheduled ∙ stuck.scheduled;
    count = same.freed ∙ stuck.count;
    held = same.self ∙ stuck.held;
  }

  not_reading : flushing ≡ reading → ⊥
  not_reading q = cc

  Step-IsStuck :
      (n : ℕ) (self : Bool) (r s : Request E) → Step r s → IsStuck n self r → IsStuck n self s
  unfolding flush_writecb flush_eventcb
  Step-IsStuck n self r s (sent _ b) stuck = record {
    cbs = stuck.cbs;
    cleaning = stuck.cleaning;
    scheduled = stuck.scheduled;
    count = stuck.count;
    held = stuck.held;
  }
  Step-IsStuck n self r s (called c) stuck = SameLife-IsStuck n self r s (Call-SameLife r s c) stuck
  Step-IsStuck n self r s (readable _ input q) stuck = absurd (not_reading (sym stuck.cbs ∙ q))
  Step-IsStuck n self r s (ended _ eof error q) stuck = absurd (not_reading (sym stuck.cbs ∙ q))
  Step-IsStuck n self r s (flushed _ q) stuck =
      if_left (IsStuck n self) r.ws_cleaning_up _ _ stuck.cleaning stuck
  Step-IsStuck n self r s (flush_ended _ ends q) stuck =
      if_left (IsStuck n self) r.ws_cleaning_up _ _ stuck.cleaning stuck
  Step-IsStuck n self r s (timer _ q) stuck = absurd (omega (arith, stuck.scheduled))

  Steps-IsStuck :
      (n : ℕ) (self : Bool) (r s : Request E) → Steps r s → IsStuck n self r → IsStuck n self s
  Steps-IsStuck n self r s (stay _) stuck = stuck
  Steps-IsStuck n self r t (step {s = s} first rest) stuck =
      Steps-IsStuck n self s t rest (Step-IsStuck n self r s first stuck)

  unflushed :
      (r : Request E)
      → r.ws_cleaning_up ≡ false
      → r.ws_bev ≡ true
      → r.frees_scheduled ≡ 0
      → (E.get_length r.output == 0) ≡ false
      → IsStuck r.connections_freed r.self_ref (connection_cleanup connected r)
  unfolding connection_cleanup release detach frame_queue_clear
  unflushed r fresh bev none_yet pending =
      let P = IsStuck r.connections_freed r.self_ref in
      if_right P r.ws_cleaning_up _ _ fresh (
        if_left P r.ws_bev _ _ bev (
          if_right P (E.get_length r.output == 0) _ _ pending record {
            cbs = refl;
            cleaning = refl;
            scheduled = none_yet;
            count = refl;
            held = refl;
          }))

  -- A connection whose output is not empty when it is cleaned up is never freed: whatever steps
  -- follow, no free is scheduled, no connection is freed, and the reference to the request is kept
  -- as it was.
  pub unflushed_never_freed :
      (r s : Request E)
      → r.ws_cleaning_up ≡ false
      → r.ws_bev ≡ true
      → r.frees_scheduled ≡ 0
      → (E.get_length r.output == 0) ≡ false
      → Steps (connection_cleanup connected r) s
      → (s.frees_scheduled ≡ 0)
        × (s.connections_freed ≡ r.connections_freed)
        × (s.self_ref ≡ r.self_ref)
  unflushed_never_freed r s fresh bev none_yet pending steps =
      let stuck =
        Steps-IsStuck r.connections_freed r.self_ref (connection_cleanup connected r) s steps
          (unflushed r fresh bev none_yet pending) in
      (stuck.scheduled, stuck.count, stuck.held)
