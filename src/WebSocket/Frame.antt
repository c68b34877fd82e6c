-- ===== src/WebSocket/Frame.antt =====
-- src/httpd_websocket.c: parsing and creating frames.
use luafan.Common.{
  ℕ, zero, suc, ◌+◌, ◌-◌, ◌%◌, bit_and, bit_or, bit_xor, Bool, not, Option, none, some, List, [],
  ◌∷◌, ltb, leb, ◌==◌, if◌then◌else◌, get_or, slice, take, blit,
}
use luafan.Common.Words.{le_bytes, le_value, be_bytes, be_value}
use luafan.ByteArray.State.{Heap, add_size, bytes_of, is_null}
use luafan.ByteArray.Grow.{malloc}
use luafan.WebSocket.EvBuffer.{EvBuffer}
use mathlib.Core.Option

-- `websocket_frame_t`
pub record Frame : Type 0 where
  pub fin : Bool
  pub rsv1 : Bool
  pub rsv2 : Bool
  pub rsv3 : Bool
  pub opcode : ℕ
  pub masked : Bool
  pub payload_len : ℕ
  pub mask_key : ℕ
  pub payload : Option (List ℕ)

-- The status of `websocket_parse_frame`: 0, 1 and -1.
pub data Rc : Type 0 where
  incomplete : Rc
  complete : Rc
  failed : Rc

-- The loop of `websocket_mask_unmask` from index `i` on; `mask_bytes` is the key in memory.
unfoldable pub mask_from : List ℕ → ℕ → ℕ → List ℕ → List ℕ
mask_from mask_bytes i zero bytes = bytes
mask_from mask_bytes i (suc left) [] = []
mask_from mask_bytes i (suc left) (d ∷ bytes) =
    bit_xor d (get_or mask_bytes (i % 4) 0) ∷ mask_from mask_bytes (i + 1) left bytes

unfoldable pub mask_unmask : List ℕ → ℕ → ℕ → List ℕ
mask_unmask bytes len mask_key = mask_from (le_bytes 4 mask_key) 0 len bytes

-- `(b & bit) != 0`
abbrev pub has : ℕ → ℕ → Bool
has b bit = not (bit_and b bit == 0)

-- What the first two bytes say, but for the length.
unfoldable pub read_flags : Frame → List ℕ → Frame
read_flags frame peek_buf =
    let b0 = get_or peek_buf 0 0 in
    record frame {
      fin = has b0 0x80;
      rsv1 = has b0 0x40;
      rsv2 = has b0 0x20;
      rsv3 = has b0 0x10;
      opcode = bit_and b0 0x0f;
      masked = has (get_or peek_buf 1 0) 0x80;
    }

-- The payload's length and the header's size without the mask; `none` where more bytes are needed.
unfoldable pub read_length : List ℕ → ℕ → Option (ℕ × ℕ)
read_length peek_buf peek_len =
    let payload_len = bit_and (get_or peek_buf 1 0) 0x7f in
    if payload_len == 126
    then (if ltb peek_len 4 then none else some (be_value (slice peek_buf 2 2), 4))
    else if payload_len == 127
    then (if ltb peek_len 10 then none else some (be_value (slice peek_buf 2 8), 10))
    else some (payload_len, 2)

module _ (E : EvBuffer) where
  -- The payload's block, once `malloc` answers.
  unfoldable pub fill_payload : Frame → Option (List ℕ) → E.Buffer → Rc × Frame × E.Buffer
  fill_payload frame none input = (failed, record frame { payload = none }, input)
  fill_payload frame (some block) input =
      let (bytes, input') = E.remove input frame.payload_len in
      let masked_bytes = blit block 0 bytes in
      let plain =
        if frame.masked
        then mask_unmask masked_bytes frame.payload_len frame.mask_key
        else masked_bytes in
      (complete, record frame { payload = some plain }, input')

  unfoldable pub read_payload : Heap → Frame → E.Buffer → Rc × Frame × E.Buffer
  read_payload h frame input =
      if ltb 0 frame.payload_len
      then fill_payload frame (malloc h frame.payload_len) input
      else (complete, record frame { payload = none }, input)

  -- From the completeness check on; `sizes` is what `read_length` finds.
  unfoldable pub read_body :
      Heap → Frame → Option (ℕ × ℕ) → ℕ → List ℕ → E.Buffer → Rc × Frame × E.Buffer
  read_body h frame none available peek_buf input = (incomplete, frame, input)
  read_body h frame (some (payload_len, size)) available peek_buf input =
      let header_size = if frame.masked then size + 4 else size in
      let key = le_value (slice peek_buf (header_size - 4) 4) in
      let frame1 = record frame { payload_len = payload_len } in
      let frame2 = record frame1 { mask_key = if frame.masked then key else frame.mask_key } in
      if ltb available (add_size header_size payload_len)
      then (incomplete, frame1, input)
      else read_payload h frame2 (E.drain input header_size)

  unfoldable pub parse_frame : Heap → E.Buffer → Frame → Rc × Frame × E.Buffer
  parse_frame h input frame =
      let available = E.get_length input in
      let peek_len = if ltb available 14 then available else 14 in
      let peek_buf = E.copyout input peek_len in
      if ltb available 2
      then (incomplete, frame, input)
      else read_body h (read_flags frame peek_buf) (read_length peek_buf peek_len) available
          peek_buf input

  -- The length's bytes behind the first byte.
  unfoldable pub add_length : E.Buffer → ℕ → E.Buffer
  add_length frame payload_len =
      if ltb payload_len 126
      then E.add frame (payload_len ∷ [])
      else if leb payload_len 65535
      then E.add (E.add frame (126 ∷ [])) (be_bytes 2 payload_len)
      else E.add (E.add frame (127 ∷ [])) (be_bytes 8 payload_len)

  unfoldable pub fill_frame : E.Buffer → ℕ → Option (List ℕ) → ℕ → Bool → E.Buffer
  fill_frame frame opcode payload payload_len fin =
      let first_byte = bit_or (if fin then 0x80 else 0x00) (bit_and opcode 0x0f) in
      let frame1 = add_length (E.add frame (first_byte ∷ [])) payload_len in
      if is_null payload
      then frame1
      else if ltb 0 payload_len
      then E.add frame1 (take payload_len (bytes_of payload))
      else frame1

  unfoldable pub create_frame : ℕ → Option (List ℕ) → ℕ → Bool → Option E.Buffer
  create_frame opcode payload payload_len fin =
      Option.map (λ frame. fill_frame frame opcode payload payload_len fin) E.make
