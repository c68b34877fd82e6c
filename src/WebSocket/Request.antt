-- ===== src/WebSocket/Request.antt =====
-- The WebSocket part of struct Request of src/httpd_internal.h, and the queue of frames, the
-- connection's cleanup and its callbacks in src/httpd_websocket.c.
use luafan.Common.{
  ℕ, ◌+◌, ◌-◌, Bool, true, false, not, ◌&&◌, Option, none, some, List, [], ◌∷◌, ◌++◌, leb, ◌==◌,
  if◌then◌else◌,
}
use luafan.ByteArray.State.{Heap}
use luafan.WebSocket.EvBuffer.{EvBuffer}
use luafan.WebSocket.Frame.{Frame}

-- `websocket_state_t`
pub data WsState : Type 0 where
  ws_connecting : WsState
  ws_open : WsState
  ws_closing : WsState
  ws_closed : WsState

-- What `bufferevent_setcb` was last called with: `ws_readcb` and `ws_eventcb`, the two flush
-- callbacks, or none.
pub data Callbacks : Type 0 where
  reading : Callbacks
  flushing : Callbacks
  off : Callbacks

-- `REPLY_STATUS_NONE`, `REPLY_STATUS_REPLYED` and `REPLY_STATUS_REPLY_START`
pub data ReplyStatus : Type 0 where
  status_none : ReplyStatus
  replied : ReplyStatus
  reply_start : ReplyStatus

-- A pointer or a reference that is only ever set, tested and cleared is whether it is set. `output`,
-- `callbacks`, `read_enabled`, `frees_scheduled` and `connections_freed` are what the code has made
-- of the bufferevent, the event base and the evhttp connection.
pub record Request (E : EvBuffer) : Type 0 where
  pub req : Bool
  pub reply_status : ReplyStatus
  pub is_websocket : Bool
  pub ws_state : WsState
  pub ws_bev : Bool
  pub mainthread : Bool
  pub waiting : Bool
  pub self_ref : Bool
  pub prevent_gc_ref : Bool
  pub frame_queue : List Frame
  pub frame_queue_len : ℕ
  pub owns_request : Bool
  pub ws_cleaning_up : Bool
  pub output : E.Buffer
  pub callbacks : Callbacks
  pub read_enabled : Bool
  pub frees_scheduled : ℕ
  pub connections_freed : ℕ

abbrev pub max_queued_frames : ℕ
max_queued_frames = 64

-- `sizeof(ws_frame_node_t)`
abbrev pub node_size : ℕ
node_size = 56

module _ {E : EvBuffer} where
  unfoldable pub frame_queue_push : Heap → Request E → Frame → Request E
  frame_queue_push h r frame =
      if leb max_queued_frames r.frame_queue_len
      then r
      else if not (h.grants node_size)
      then r
      else record r {
        frame_queue = r.frame_queue ++ (frame ∷ []);
        frame_queue_len = r.frame_queue_len + 1;
      }

  -- The pop of a queue with these nodes.
  abbrev pub pop_from : Request E → List Frame → Option Frame × Request E
  pop_from r [] = (none, r)
  pop_from r (frame ∷ next) =
      (some frame, record r { frame_queue = next; frame_queue_len = r.frame_queue_len - 1 })

  unfoldable pub frame_queue_pop : Request E → Option Frame × Request E
  frame_queue_pop r = pop_from r r.frame_queue

  unfoldable pub frame_queue_clear : Request E → Request E
  frame_queue_clear r = record r { frame_queue = []; frame_queue_len = 0 }

  -- `luaL_unref` of both references, each if it is set.
  abbrev pub clear_refs : Request E → Request E
  clear_refs r = record r {
    self_ref = r.self_ref && not r.mainthread;
    prevent_gc_ref = r.prevent_gc_ref && not r.mainthread;
  }

  -- `connected` is whether `evhttp_request_get_connection` finds the connection.
  unfoldable pub free_connection : Bool → Request E → Request E
  free_connection connected r = record r {
    req = false;
    owns_request = false;
    connections_freed = if connected then r.connections_freed + 1 else r.connections_freed;
  }

  unfoldable pub deferred_free_cb : Bool → Request E → Request E
  deferred_free_cb connected r =
      if not r.ws_cleaning_up
      then r
      else let r1 = if r.owns_request && r.req then free_connection connected r else r in
        clear_refs (record r1 { req = false; owns_request = false })

  unfoldable pub schedule_free : Request E → Request E
  schedule_free r = record r { callbacks = off; frees_scheduled = r.frees_scheduled + 1 }

  unfoldable pub flush_writecb : Request E → Request E
  flush_writecb r =
      if r.ws_cleaning_up then r else if E.get_length r.output == 0 then schedule_free r else r

  -- `ends` is `what & (BEV_EVENT_EOF | BEV_EVENT_ERROR)`.
  unfoldable pub flush_eventcb : Request E → Bool → Request E
  flush_eventcb r ends = if r.ws_cleaning_up then r else if ends then schedule_free r else r

  -- The bufferevent is given up at once, or once its output is flushed.
  unfoldable pub detach : Request E → Request E
  detach r =
      if E.get_length r.output == 0 then schedule_free r else record r { callbacks = flushing }

  -- What follows in `ws_connection_cleanup` once the flag is won.
  unfoldable pub release : Bool → Request E → Request E
  release connected r =
      if r.ws_bev
      then detach (record r { ws_bev = false; read_enabled = false })
      else if r.owns_request && r.req
      then clear_refs (free_connection connected r)
      else r

  unfoldable pub connection_cleanup : Bool → Request E → Request E
  connection_cleanup connected r =
      if r.ws_cleaning_up
      then r
      else release connected (frame_queue_clear (record r { ws_cleaning_up = true }))
