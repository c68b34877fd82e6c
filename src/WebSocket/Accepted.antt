-- ===== src/WebSocket/Accepted.antt =====
-- src/httpd_websocket.c: the consistency of a request's fields after websocket_accept.
use luafan.Common.{ℕ, ◌≡◌, refl, sym, ◌∙◌, Bool, true, false, not, Option, none, some, List}
use luafan.WebSocket.EvBuffer.{EvBuffer}
use luafan.WebSocket.Request.{Request, reading, flushing}
use luafan.WebSocket.Life.{if_both}
use luafan.WebSocket.Sound.{IsSound}
use luafan.WebSocket.Accept.{
  Headers, AcceptReply, is_status_none, is_websocket_upgrade_request, take_over, respond,
  with_accept_key, with_key, websocket_accept,
}

module _ {E : EvBuffer} (bev : Bool) where
  take_over-IsSound :
      (r : Request E) (response : E.Buffer)
      → IsSound r
      → r.ws_cleaning_up ≡ false
      → IsSound (take_over bev r response)
  unfolding take_over
  take_over-IsSound r response (q, a) fresh = (
    record { counted = q.counted; bounded = q.bounded; no_backlog = q.no_backlog },
    record {
      detached = λ p. absurd (impossible (sym fresh ∙ p));
      attached = λ p. refl;
      flushes = λ p. absurd (not_flushing p);
      once = a.once;
    },
  )
    where
      impossible : false ≡ true → ⊥
      impossible p = cc

      not_flushing : reading ≡ flushing → ⊥
      not_flushing p = cc

  abbrev Keeps : AcceptReply × Request E → Type 0
  Keeps x = IsSound x.1

  owned : (r : Request E) → IsSound r → IsSound (record r { owns_request = true })
  owned r (q, a) = (
    record { counted = q.counted; bounded = q.bounded; no_backlog = q.no_backlog },
    record { detached = a.detached; attached = a.attached; flushes = a.flushes; once = a.once },
  )

  respond-IsSound :
      (r : Request E) (accept_key : List ℕ) (o : Option E.Buffer)
      → IsSound r
      → r.ws_cleaning_up ≡ false
      → Keeps (respond bev r accept_key o)
  respond-IsSound r accept_key none ok fresh = ok
  respond-IsSound r accept_key (some response) ok fresh =
      if_both Keeps bev (take_over-IsSound r _ ok fresh) ok

  with_key-IsSound :
      (r : Request E) (generate : List ℕ → Option (List ℕ)) (o : Option (List ℕ))
      → IsSound r
      → r.ws_cleaning_up ≡ false
      → Keeps (with_key bev r generate o)
  with_key-IsSound r generate none ok fresh = ok
  with_key-IsSound r generate (some ws_key) ok fresh = keyed (generate ws_key)
    where
      keyed : (o : Option (List ℕ)) → Keeps (with_accept_key bev r o)
      keyed none = ok
      keyed (some accept_key) = respond-IsSound _ accept_key E.make (owned r ok) fresh

  -- websocket_accept on a sound request that is not cleaned up leaves a sound request, whether it
  -- accepts or refuses.
  pub websocket_accept-IsSound :
      (r : Request E) (headers : Headers) (generate : List ℕ → Option (List ℕ))
      → IsSound r
      → r.ws_cleaning_up ≡ false
      → IsSound (websocket_accept bev r headers generate).1
  unfolding websocket_accept
  websocket_accept-IsSound r headers generate ok fresh = if_both Keeps (not r.req) ok (
      if_both Keeps (not (is_status_none r.reply_status)) ok (
        if_both Keeps (not (is_websocket_upgrade_request headers)) ok
          (with_key-IsSound r generate headers.ws_key ok fresh)))
