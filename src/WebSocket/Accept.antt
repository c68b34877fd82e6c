-- ===== src/WebSocket/Accept.antt =====
-- src/httpd_websocket.c: the upgrade test and websocket_accept.
use luafan.Common.{
  ℕ, ◌+◌, Bool, true, false, not, ◌&&◌, ◌||◌, Option, none, some, List, [], ◌∷◌, ◌++◌, leb, ltb,
  ◌==◌, if◌then◌else◌, length,
}
use luafan.WebSocket.EvBuffer.{EvBuffer}
use luafan.WebSocket.Request.{
  Request, ReplyStatus, status_none, replied, reply_start, ws_open, reading,
}

abbrev pub lower : ℕ → ℕ
lower c = if leb 65 c && leb c 90 then c + 32 else c

-- strcasecmp(a, b) == 0, of the C library
unfoldable pub same_ignoring_case : List ℕ → List ℕ → Bool
same_ignoring_case [] [] = true
same_ignoring_case [] (c ∷ cs) = false
same_ignoring_case (c ∷ cs) [] = false
same_ignoring_case (c ∷ cs) (d ∷ ds) = (lower c == lower d) && same_ignoring_case cs ds

-- Whether a text starts with `needle`.
unfoldable pub starts_ignoring_case : List ℕ → List ℕ → Bool
starts_ignoring_case text [] = true
starts_ignoring_case [] (d ∷ ds) = false
starts_ignoring_case (c ∷ cs) (d ∷ ds) = (lower c == lower d) && starts_ignoring_case cs ds

-- strcasestr(text, needle) != NULL, of the C library
unfoldable pub contains_ignoring_case : List ℕ → List ℕ → Bool
contains_ignoring_case [] needle = starts_ignoring_case [] needle
contains_ignoring_case (c ∷ cs) needle =
    starts_ignoring_case (c ∷ cs) needle || contains_ignoring_case cs needle

-- The four headers that the code asks evhttp for; `none` where a header is missing.
pub record Headers : Type 0 where
  pub upgrade : Option (List ℕ)
  pub connection : Option (List ℕ)
  pub ws_key : Option (List ℕ)
  pub ws_version : Option (List ℕ)

-- A test of a header that is there.
abbrev pub present : (List ℕ → Bool) → Option (List ℕ) → Bool
present test none = false
present test (some text) = test text

-- "websocket", "upgrade"
abbrev pub websocket_word : List ℕ
websocket_word = 119 ∷ 101 ∷ 98 ∷ 115 ∷ 111 ∷ 99 ∷ 107 ∷ 101 ∷ 116 ∷ []

abbrev pub upgrade_word : List ℕ
upgrade_word = 117 ∷ 112 ∷ 103 ∷ 114 ∷ 97 ∷ 100 ∷ 101 ∷ []

-- strcmp(text, "13") == 0
abbrev pub is_version_13 : List ℕ → Bool
is_version_13 (c ∷ d ∷ []) = (c == 49) && (d == 51)
is_version_13 _ = false

unfoldable pub is_websocket_upgrade_request : Headers → Bool
is_websocket_upgrade_request headers =
    present (λ text. same_ignoring_case text websocket_word) headers.upgrade
    && present (λ text. contains_ignoring_case text upgrade_word) headers.connection
    && present (λ text. ltb 0 (length text)) headers.ws_key
    && present is_version_13 headers.ws_version

-- The reply up to the key, and behind it.
abbrev pub response_head : List ℕ
response_head =
    72 ∷ 84 ∷ 84 ∷ 80 ∷ 47 ∷ 49 ∷ 46 ∷ 49 ∷ 32 ∷ 49 ∷ 48 ∷ 49 ∷ 32 ∷ 83 ∷ 119 ∷ 105 ∷ 116 ∷ 99 ∷ 104
    ∷ 105 ∷ 110 ∷ 103 ∷ 32 ∷ 80 ∷ 114 ∷ 111 ∷ 116 ∷ 111 ∷ 99 ∷ 111 ∷ 108 ∷ 115 ∷ 13 ∷ 10 ∷ 85 ∷ 112
    ∷ 103 ∷ 114 ∷ 97 ∷ 100 ∷ 101 ∷ 58 ∷ 32 ∷ 119 ∷ 101 ∷ 98 ∷ 115 ∷ 111 ∷ 99 ∷ 107 ∷ 101 ∷ 116 ∷ 13
    ∷ 10 ∷ 67 ∷ 111 ∷ 110 ∷ 110 ∷ 101 ∷ 99 ∷ 116 ∷ 105 ∷ 111 ∷ 110 ∷ 58 ∷ 32 ∷ 85 ∷ 112 ∷ 103 ∷ 114
    ∷ 97 ∷ 100 ∷ 101 ∷ 13 ∷ 10 ∷ 83 ∷ 101 ∷ 99 ∷ 45 ∷ 87 ∷ 101 ∷ 98 ∷ 83 ∷ 111 ∷ 99 ∷ 107 ∷ 101
    ∷ 116 ∷ 45 ∷ 65 ∷ 99 ∷ 99 ∷ 101 ∷ 112 ∷ 116 ∷ 58 ∷ 32 ∷ []

abbrev pub response_tail : List ℕ
response_tail = 13 ∷ 10 ∷ 13 ∷ 10 ∷ []

-- The messages of `luaL_error`.
pub data AcceptError : Type 0 where
  peer_gone : AcceptError
  already_started : AcceptError
  no_upgrade : AcceptError
  missing_key : AcceptError
  no_accept_key : AcceptError
  no_response : AcceptError

pub data AcceptReply : Type 0 where
  refused : AcceptError → AcceptReply
  answered : Bool → AcceptReply

abbrev pub is_status_none : ReplyStatus → Bool
is_status_none status_none = true
is_status_none replied = false
is_status_none reply_start = false

-- `bev` is whether the evhttp connection has a bufferevent.
module _ {E : EvBuffer} (bev : Bool) where
  -- The connection is taken over, and the reply handed to the bufferevent.
  unfoldable pub take_over : Request E → E.Buffer → Request E
  take_over r response = record r {
    output = E.add_buffer r.output response;
    is_websocket = true;
    ws_state = ws_open;
    ws_bev = true;
    reply_status = replied;
    mainthread = true;
    callbacks = reading;
    read_enabled = true;
    self_ref = true;
  }

  -- From the response's buffer on.
  abbrev pub respond : Request E → List ℕ → Option E.Buffer → AcceptReply × Request E
  respond r accept_key none = (refused no_response, r)
  respond r accept_key (some response) =
      if bev
      then (
        answered true,
        take_over r (E.add response (response_head ++ accept_key ++ response_tail)),
      )
      else (answered false, r)

  -- From the accept key on.
  abbrev pub with_accept_key : Request E → Option (List ℕ) → AcceptReply × Request E
  with_accept_key r none = (refused no_accept_key, r)
  with_accept_key r (some accept_key) = respond (record r { owns_request = true }) accept_key E.make

  abbrev pub with_key :
      Request E → (List ℕ → Option (List ℕ)) → Option (List ℕ) → AcceptReply × Request E
  with_key r generate none = (refused missing_key, r)
  with_key r generate (some ws_key) = with_accept_key r (generate ws_key)

  -- `generate` is `generate_websocket_accept_key`, which is OpenSSL's SHA-1 and base64.
  unfoldable pub websocket_accept :
      Request E → Headers → (List ℕ → Option (List ℕ)) → AcceptReply × Request E
  websocket_accept r headers generate =
      if not r.req
      then (refused peer_gone, r)
      else if not (is_status_none r.reply_status)
      then (refused already_started, r)
      else if not (is_websocket_upgrade_request headers)
      then (refused no_upgrade, r)
      else with_key r generate headers.ws_key
