-- ===== src/WebSocket/Tests.antt =====
-- Runs of the WebSocket modules on concrete frames, buffers and connections.
use luafan.Common.{ℕ, ◌+◌, ◌≡◌, refl, min, true, some, List, [], ◌∷◌, ◌++◌, length, take, arith}
use luafan.Common.Int.{pos}
use luafan.Common.Words.{le_bytes}
use luafan.ByteArray.Samples.{roomy}
use luafan.WebSocket.Frame.{
  Frame, incomplete, complete, mask_from, mask_unmask, create_frame, fill_frame, add_length,
  parse_frame,
}
use luafan.WebSocket.Wire.{wire}
use luafan.WebSocket.Parse.{parse_frame_short, parse_frame-wire}
use luafan.WebSocket.Create.{server_frame, parse_frame-create_frame}
use luafan.WebSocket.Request.{
  Request, connection_cleanup, flush_writecb, release, detach, frame_queue_clear,
}
use luafan.WebSocket.Events.{blank_frame, read_frames, readcb, on_ping}
use luafan.WebSocket.Api.{yielded, websocket_receive, close_payload}
use luafan.WebSocket.Steps.{stay, step, sent, readable, flushed, unflushed_never_freed}
use luafan.WebSocket.Sound.{IsSound}
use luafan.WebSocket.Invariant.{Steps-IsSound}
use luafan.WebSocket.Drains.{readcb_total}
use luafan.WebSocket.Waiting.{receive_never_resumed}
use luafan.WebSocket.Control.{length-close_payload, on_ping-output}
use luafan.WebSocket.Accept.{
  websocket_accept, answered, is_websocket_upgrade_request, same_ignoring_case,
  contains_ignoring_case, starts_ignoring_case,
}
use luafan.WebSocket.Accepted.{websocket_accept-IsSound}
use luafan.WebSocket.Samples.{
  fresh_request, fresh_request-IsSound, browser_headers, list_evbuffer, list_laws, client_frame,
  client_frame-IsFrame, accepted, accepted-IsSound, reader, reader-Calls,
}

parse_frame-wire_example :
    (input' : List ℕ) × (parse_frame list_evbuffer roomy (wire client_frame ++ (7 ∷ [])) blank_frame
      ≡ (complete, client_frame, input'))
    × (input' ≡ 7 ∷ [])
parse_frame-wire_example =
    parse_frame-wire list_evbuffer list_laws roomy client_frame client_frame-IsFrame (7 ∷ [])
      (wire client_frame ++ (7 ∷ [])) blank_frame (λ n. refl) refl refl

parse_frame_short_example :
    (frame' : Frame) × (parse_frame list_evbuffer roomy
        (take 5 (wire client_frame ++ []))
        blank_frame
      ≡ (incomplete, frame', take 5 (wire client_frame ++ [])))
unfolding mask_unmask mask_from le_bytes
parse_frame_short_example =
    parse_frame_short list_evbuffer list_laws roomy client_frame client_frame-IsFrame []
      (take 5 (wire client_frame ++ [])) blank_frame 5 (omega arith) refl

parse_frame-create_frame_example :
    (input' : List ℕ) × (parse_frame list_evbuffer roomy (129 ∷ 2 ∷ 104 ∷ 105 ∷ 9 ∷ []) blank_frame
      ≡ (complete, server_frame 1 (104 ∷ 105 ∷ []) true, input'))
    × (input' ≡ 9 ∷ [])
unfolding create_frame fill_frame add_length
parse_frame-create_frame_example =
    parse_frame-create_frame list_evbuffer list_laws roomy 1 (104 ∷ 105 ∷ []) true
      (129 ∷ 2 ∷ 104 ∷ 105 ∷ []) (129 ∷ 2 ∷ 104 ∷ 105 ∷ 9 ∷ []) (9 ∷ []) blank_frame (λ n. refl)
      (omega arith) (omega arith, (omega arith, tt)) (omega arith) refl refl refl

-- The output is sent, and the bufferevent calls the flush callback.
abbrev drained : Request list_evbuffer
drained = record (connection_cleanup true (accepted (5 ∷ 6 ∷ []))) { output = [] }

unflushed_never_freed_example :
    ((flush_writecb drained).frees_scheduled ≡ 0)
    × ((flush_writecb drained).connections_freed ≡ 0)
    × ((flush_writecb drained).self_ref ≡ true)
unfolding connection_cleanup release detach frame_queue_clear
unflushed_never_freed_example =
    unflushed_never_freed roomy true reader (accepted (5 ∷ 6 ∷ [])) (flush_writecb drained) refl
      refl refl refl
      (step (sent (connection_cleanup true (accepted (5 ∷ 6 ∷ []))) [])
        (step (flushed drained refl) (stay _)))

Steps-IsSound_example :
    IsSound (readcb roomy true reader (accepted []) (129 ∷ 2 ∷ 104 ∷ 105 ∷ [])).0
Steps-IsSound_example =
    Steps-IsSound roomy true reader reader-Calls (accepted [])
      (readcb roomy true reader (accepted []) (129 ∷ 2 ∷ 104 ∷ 105 ∷ [])).0
      (step (readable (accepted []) (129 ∷ 2 ∷ 104 ∷ 105 ∷ []) refl) (stay _)) accepted-IsSound

readcb_total_example :
    read_frames roomy true reader 9 (accepted []) (129 ∷ 1 ∷ 104 ∷ [])
    ≡ readcb roomy true reader (accepted []) (129 ∷ 1 ∷ 104 ∷ [])
readcb_total_example =
    readcb_total list_evbuffer list_laws roomy true reader 9 (accepted []) (129 ∷ 1 ∷ 104 ∷ [])
      (omega arith)

length-close_payload_example :
    length (close_payload (pos 1000) (some (98 ∷ 121 ∷ 101 ∷ []))) ≡ 2 + min 125 3
length-close_payload_example =
    length-close_payload 1000 (some (98 ∷ 121 ∷ 101 ∷ [])) (omega arith) (omega arith)

-- The coroutine that reads the connection has ended; another one calls receive.
receive_never_resumed_example :
    ((websocket_receive (connection_cleanup true (accepted []))).0 ≡ yielded)
    × ((websocket_receive (connection_cleanup true (accepted []))).1.waiting ≡ true)
receive_never_resumed_example =
    receive_never_resumed roomy true reader (accepted [])
      (websocket_receive (connection_cleanup true (accepted []))).1 refl refl refl refl refl
      (stay _)

on_ping-output_example :
    (on_ping roomy true reader (accepted (5 ∷ [])) client_frame).output
    ≡ (5 ∷ []) ++ wire (server_frame 0xa (104 ∷ 105 ∷ []) true)
on_ping-output_example =
    on_ping-output list_evbuffer list_laws roomy true reader (accepted (5 ∷ [])) client_frame []
      refl refl refl refl

websocket_accept-IsSound_example :
    IsSound (websocket_accept true fresh_request browser_headers (λ key. some key)).1
websocket_accept-IsSound_example =
    websocket_accept-IsSound true fresh_request browser_headers (λ key. some key)
      fresh_request-IsSound refl

-- A browser's headers pass the test, and the request is accepted.
accept_run :
    (websocket_accept true fresh_request browser_headers (λ key. some key)).0 ≡ answered true
unfolding websocket_accept is_websocket_upgrade_request same_ignoring_case contains_ignoring_case
    starts_ignoring_case
accept_run = refl
