-- ===== src/WebSocket/Control.antt =====
-- src/httpd_websocket.c: the answers to control frames, and the frame that closes a connection.
use luafan.Common.{
  ℕ, ◌+◌, ◌/◌, ◌^◌, ◌≤◌, ◌≡◌, ◌∙◌, ap, min, bit_and, Bool, true, ◌&&◌, Option, some, List, [], ◌∷◌,
  ◌++◌, leb, length, take, length-take, arith,
}
use luafan.Common.Int.{pos}
use luafan.ByteArray.State.{Heap, bytes_of}
use luafan.WebSocket.EvBuffer.{EvBuffer, EvBufferLaws}
use luafan.WebSocket.Frame.{Frame, fill_frame, create_frame}
use luafan.WebSocket.Wire.{wire}
use luafan.WebSocket.Create.{server_frame, fill_frame-payload}
use luafan.WebSocket.Request.{Request}
use luafan.WebSocket.Events.{Resumption, is_open, write_frame, on_ping}
use mathlib.Core.Option
use luafan.WebSocket.Api.{close_payload}
use luafan.WebSocket.Life.{if_left}

-- With a code from 1000 to 4999, the payload of the frame that close sends has two bytes and up to
-- 125 bytes of the reason.
pub length-close_payload :
    (close_code : ℕ) (reason : Option (List ℕ))
    → 1000 ≤ close_code
    → close_code ≤ 4999
    → length (close_payload (pos close_code) reason) ≡ 2 + min 125 (length (bytes_of reason))
unfolding close_payload
length-close_payload close_code reason low high =
    let valid : (leb 1000 close_code && leb close_code 4999) ≡ true = ground arith in
    let P : List ℕ → Type 0 = λ bs. length bs ≡ 2 + min 125 (length (bytes_of reason)) in
    let two =
      bit_and (close_code / 2 ^ 8) 0xff ∷ bit_and close_code 0xff ∷ take 125 (bytes_of reason) in
    let sized : P two = omega (arith, length-take 125 (bytes_of reason)) in
    if_left P (leb 1000 close_code && leb close_code 4999) two [] valid sized

module _ (E : EvBuffer) (L : EvBufferLaws E) (h : Heap) (connected : Bool)
    (resume : Resumption → Request E → Bool × Request E) where
  -- Where a buffer can be made, a ping on an attached and open connection appends the bytes of a
  -- pong with the same payload to the output.
  pub on_ping-output :
      (r : Request E) (frame : Frame) (b : E.Buffer)
      → r.ws_bev ≡ true
      → is_open r.ws_state ≡ true
      → length (bytes_of frame.payload) ≡ frame.payload_len
      → E.make ≡ some b
      → L.contents (on_ping h connected resume r frame).output
        ≡ L.contents r.output ++ wire (server_frame 0xa (bytes_of frame.payload) true)
  unfolding on_ping write_frame create_frame
  on_ping-output r frame b bev is_opened size made =
      let open_now : (r.ws_bev && is_open r.ws_state) ≡ true = ground arith in
      let P : Request E → Type 0 = λ x.
        L.contents x.output
        ≡ L.contents r.output ++ wire (server_frame 0xa (bytes_of frame.payload) true) in
      let pong = fill_frame E b 0xa frame.payload frame.payload_len true in
      let sent : create_frame E 0xa frame.payload frame.payload_len true ≡ some pong =
        ap (λ o. Option.map (λ t. fill_frame E t 0xa frame.payload frame.payload_len true) o)
          made in
      let bytes : L.contents pong ≡ wire (server_frame 0xa (bytes_of frame.payload) true) =
        rw⁻¹ size
          (fill_frame-payload E L b 0xa frame.payload true (omega arith) (L.make_lem b made)) in
      let answered : P (write_frame r (some pong)) =
        L.add_buffer_lem r.output pong ∙ ap (λ t. L.contents r.output ++ t) bytes in
      if_left P (r.ws_bev && is_open r.ws_state) _ r open_now (rw sent answered)
