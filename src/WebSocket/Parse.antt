-- ===== src/WebSocket/Parse.antt =====
-- src/httpd_websocket.c: websocket_parse_frame on the bytes of a frame.
use luafan.Common.{
  ℕ, ◌+◌, ◌≤◌, ◌<◌, ◌≡◌, ◌∙◌, refl, sym, ap, true, false, none, some, List, ◌++◌, ltb,
  if◌then◌else◌, length, take, drop, length-append, length-take, take-take, inl, inr, Bool-cases,
  take_all, arith,
}
use luafan.ByteArray.State.{Heap, add_size}
use luafan.WebSocket.EvBuffer.{EvBuffer, EvBufferLaws}
use luafan.WebSocket.Frame.{Frame, incomplete, complete, read_body, parse_frame}
use luafan.WebSocket.Wire.{extension, wire, IsFrame}
use luafan.WebSocket.Header.{read_flags-wire, read_length-wire}
use luafan.WebSocket.Payload.{
  length-extension, length-key_bytes, length-wire, drop_header, key_read, read_payload-wire,
}

-- The frame, once its header is read.
abbrev with_flags : Frame → Frame → Frame
with_flags f frame = record frame {
  fin = f.fin;
  rsv1 = f.rsv1;
  rsv2 = f.rsv2;
  rsv3 = f.rsv3;
  opcode = f.opcode;
  masked = f.masked;
}

abbrev peek_size : ℕ → ℕ
peek_size available = if ltb available 14 then available else 14

module _ (E : EvBuffer) (L : EvBufferLaws E) (h : Heap) (f : Frame) (ok : IsFrame f) (rest : List ℕ)
    (input : E.Buffer) (frame : Frame) where
  -- The header's readers, on a buffer that holds a prefix of two bytes or more.
  parse_frame-header :
      (m : ℕ)
      → 2 ≤ m
      → m ≤ length (wire f ++ rest)
      → L.contents input ≡ take m (wire f ++ rest)
      → parse_frame E h input frame
        ≡ read_body E h
            (with_flags f frame)
            (if ltb (peek_size m) (2 + length (extension f.payload_len))
              then none
              else some (f.payload_len, 2 + length (extension f.payload_len)))
            m
            (take (peek_size m) (wire f ++ rest))
            input
  unfolding parse_frame
  parse_frame-header m two le e =
      let available : E.get_length input ≡ m =
        L.get_length_lem input ∙ omega (arith, ap (length {0}) e, length-take m (wire f ++ rest)) in
      let p = peek_size m in
      let small : ltb m 2 ≡ false = ground arith in
      let peek : E.copyout input p ≡ take p (wire f ++ rest) =
        L.copyout_lem input p ∙ ap (take p) e ∙ take-take p m (wire f ++ rest) (ground arith) in
      let room : 2 ≤ p = ground arith in
      rw
        (
          available,
          peek,
          small,
          read_flags-wire f ok rest p room frame,
          read_length-wire f ok rest p room,
        )
        refl

  -- A frame of which bytes are missing is waited for, and the buffer is left as it is.
  read_body_short :
      (m : ℕ) (peek_buf : List ℕ)
      → m < length (wire f)
      → (frame' : Frame) × (read_body E h
            (with_flags f frame)
            (if ltb (peek_size m) (2 + length (extension f.payload_len))
              then none
              else some (f.payload_len, 2 + length (extension f.payload_len)))
            m
            peek_buf
            input
          ≡ (incomplete, frame', input))
  unfolding read_body
  read_body_short m peek_buf short =
      let size = 2 + length (extension f.payload_len) in
      let total = length-wire f ok in
      let key = length-key_bytes f in
      let small = length-extension f.payload_len in
      let limit = ok.len_small in
      elim (Bool-cases (ltb (peek_size m) size)) [
        | inl none_yet ↦ (with_flags f frame, rw none_yet refl)
        | inr sized ↦
            let missing : ltb m (add_size (if f.masked then size + 4 else size) f.payload_len)
                ≡ true =
              ground arith in
            (record (with_flags f frame) { payload_len = f.payload_len }, rw (sized, missing) refl)
      ]

  parse_frame_tiny :
      (m : ℕ)
      → m < 2
      → m ≤ length (wire f ++ rest)
      → L.contents input ≡ take m (wire f ++ rest)
      → parse_frame E h input frame ≡ (incomplete, frame, input)
  unfolding parse_frame
  parse_frame_tiny m tiny le e =
      let available : E.get_length input ≡ m =
        L.get_length_lem input ∙ omega (arith, ap (length {0}) e, length-take m (wire f ++ rest)) in
      let test : ltb m 2 ≡ true = ground arith in rw (available, test) refl

  -- On a buffer with fewer bytes than the frame that starts there, parse_frame is incomplete and
  -- leaves the buffer as it is.
  pub parse_frame_short :
      (m : ℕ)
      → m < length (wire f)
      → L.contents input ≡ take m (wire f ++ rest)
      → (frame' : Frame) × (parse_frame E h input frame ≡ (incomplete, frame', input))
  parse_frame_short m short e =
      let room = length-append (wire f) rest in
      elim (Bool-cases (ltb m 2)) [
        | inl tiny ↦ (frame, parse_frame_tiny m (ground arith) (omega arith) e)
        | inr two ↦
            let (frame', r) = read_body_short m (take (peek_size m) (wire f ++ rest)) short in
            (frame', parse_frame-header m (ground arith) (omega arith) e ∙ r)
      ]

  -- On a buffer that starts with the bytes of a frame, masked or not, of at most 2 ^ 62 payload
  -- bytes, with a heap that grants what is asked, parse_frame is complete, fills an empty record
  -- with that frame, unmasked, and leaves what stands behind it.
  pub parse_frame-wire :
      ((n : ℕ) → h.grants n ≡ true)
      → frame.mask_key ≡ 0
      → L.contents input ≡ wire f ++ rest
      → (input' : E.Buffer) × (parse_frame E h input frame ≡ (complete, f, input'))
        × (L.contents input' ≡ rest)
  unfolding read_body
  parse_frame-wire grants blank e =
      let total = length-wire f ok in
      let key = length-key_bytes f in
      let small = length-extension f.payload_len in
      let limit = ok.len_small in
      let room = length-append (wire f) rest in
      let m = length (wire f ++ rest) in
      let size = 2 + length (extension f.payload_len) in
      let sized : ltb (peek_size m) size ≡ false = ground arith in
      let room4 : f.masked ≡ true → size + 4 ≤ peek_size m = λ q. ground arith in
      let here : ltb m (add_size (if f.masked then size + 4 else size) f.payload_len) ≡ false =
        ground arith in
      let whole : L.contents input ≡ take m (wire f ++ rest) =
        e ∙ sym (take_all m (wire f ++ rest) (omega arith)) in
      let b = E.drain input (if f.masked then size + 4 else size) in
      let (input', got, left) = read_payload-wire E L h f rest b frame.payload ok grants (
        L.drain_lem input _
        ∙ ap (drop (if f.masked then size + 4 else size)) e
        ∙ drop_header f rest) in
      (
        input',
        parse_frame-header m (omega arith) (omega arith) whole
            ∙ rw (sized, here, key_read f rest (peek_size m) frame ok blank room4) got,
        left,
      )
