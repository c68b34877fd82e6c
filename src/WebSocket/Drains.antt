-- ===== src/WebSocket/Drains.antt =====
-- src/httpd_websocket.c: how far the loop of ws_readcb can go.
use luafan.Common.{
  ℕ, zero, suc, ◌+◌, ◌≤◌, ◌<◌, ◌≡◌, refl, ap, bit_and, Bool, true, Option, none, some, List, ltb,
  ◌==◌, if◌then◌else◌, length, length-drop, get_or, arith, inl, inr, Bool-cases,
}
use luafan.ByteArray.State.{Heap}
use luafan.ByteArray.Grow.{malloc}
use luafan.WebSocket.EvBuffer.{EvBuffer, EvBufferLaws}
use luafan.WebSocket.Frame.{
  Frame, Rc, incomplete, complete, failed, parse_frame, read_length, read_body, read_payload,
  fill_payload,
}
use luafan.WebSocket.Request.{Request}
use luafan.WebSocket.Events.{Resumption, blank_frame, on_frame, read_frames, readcb}
use luafan.WebSocket.Life.{if_both, if_left, if_right}

not_complete : {A : Type 0} → incomplete ≡ complete → A
not_complete q = absurd (impossible q)
  where
    impossible : incomplete ≡ complete → ⊥
    impossible p = cc

failed_complete : {A : Type 0} → failed ≡ complete → A
failed_complete q = absurd (impossible q)
  where
    impossible : failed ≡ complete → ⊥
    impossible p = cc

same_way :
    {A : Type 0} (rc : Rc) (x y z z' : A)
    → (rc ≡ complete → z ≡ z')
    → elim rc [ incomplete ↦ x | failed ↦ y | complete ↦ z ]
      ≡ elim rc [ incomplete ↦ x | failed ↦ y | complete ↦ z' ]
same_way incomplete x y z z' e = refl
same_way failed x y z z' e = refl
same_way complete x y z z' e = e refl

abbrev HasSize : Option (ℕ × ℕ) → Type 0
HasSize none = Unit
HasSize (some (n, size)) = 2 ≤ size

read_length-HasSize : (peek_buf : List ℕ) (peek_len : ℕ) → HasSize (read_length peek_buf peek_len)
unfolding read_length
read_length-HasSize peek_buf peek_len =
    let b = bit_and (get_or peek_buf 1 0) 0x7f in
    if_both HasSize (b == 126) (if_both HasSize (ltb peek_len 4) tt (omega arith)) (
      if_both HasSize (b == 127) (if_both HasSize (ltb peek_len 10) tt (omega arith)) (omega arith))

module _ (E : EvBuffer) (L : EvBufferLaws E) (h : Heap) where
  abbrev size_of : E.Buffer → ℕ
  size_of b = length (L.contents b)

  -- A complete frame leaves less than `n` bytes.
  abbrev Drains : ℕ → Rc × Frame × E.Buffer → Type 0
  Drains n x = x.0 ≡ complete → size_of x.2 < n

  filled :
      (n : ℕ) (frame : Frame) (b : E.Buffer) (block : Option (List ℕ))
      → size_of b < n
      → Drains n (fill_payload E frame block b)
  unfolding fill_payload
  filled n frame b none le = λ q. failed_complete q
  filled n frame b (some block) le = λ q. omega (
    arith,
    le,
    ap (length {0}) (L.remove_lem b frame.payload_len),
    length-drop frame.payload_len (L.contents b),
  )

  read_payload-Drains :
      (n : ℕ) (frame : Frame) (b : E.Buffer) → size_of b < n → Drains n (read_payload E h frame b)
  unfolding read_payload
  read_payload-Drains n frame b le =
      if_both (Drains n) (ltb 0 frame.payload_len)
        (filled n frame b (malloc h frame.payload_len) le) (λ q. le)

  read_body-Drains :
      (frame : Frame) (sizes : Option (ℕ × ℕ)) (available : ℕ) (peek_buf : List ℕ)
      (input : E.Buffer)
      → HasSize sizes
      → 2 ≤ size_of input
      → Drains (size_of input) (read_body E h frame sizes available peek_buf input)
  unfolding read_body
  read_body-Drains frame none available peek_buf input size two = λ q. not_complete q
  read_body-Drains frame (some (n, size)) available peek_buf input two_size two =
      let header_size = if frame.masked then size + 4 else size in
      let shorter : size_of (E.drain input header_size) < size_of input = ground (
        arith,
        ap (length {0}) (L.drain_lem input header_size),
        length-drop header_size (L.contents input),
      ) in
      if_both (Drains (size_of input)) _ (λ q. not_complete q)
        (read_payload-Drains (size_of input) _ _ shorter)

  parse_frame-Drains :
      (input : E.Buffer) (frame : Frame) → Drains (size_of input) (parse_frame E h input frame)
  unfolding parse_frame
  parse_frame-Drains input frame =
      let available = L.get_length_lem input in
      elim (Bool-cases (ltb (E.get_length input) 2)) [
        | inl tiny ↦ if_left (Drains (size_of input)) _ _ _ tiny (λ q. not_complete q)
        | inr two ↦
            if_right (Drains (size_of input)) _ _ _ two
              (read_body-Drains _ _ _ _ input (read_length-HasSize _ _) (ground (arith, available)))
      ]

  module _ (connected : Bool) (resume : Resumption → Request E → Bool × Request E) where
    more_rounds :
        (m n : ℕ) (r : Request E) (input : E.Buffer)
        → size_of input ≤ m
        → size_of input ≤ n
        → read_frames h connected resume m r input ≡ read_frames h connected resume n r input
    unfolding read_frames
    more_rounds zero zero r input le le' = refl
    more_rounds zero (suc n) r input le le' =
        let done : (E.get_length input == 0) ≡ true = ground (arith, L.get_length_lem input) in
        if_left (λ x. (r, input) ≡ x) _ _ _ done refl
    more_rounds (suc m) zero r input le le' =
        let done : (E.get_length input == 0) ≡ true = ground (arith, L.get_length_lem input) in
        if_left (λ x. x ≡ (r, input)) _ _ _ done refl
    more_rounds (suc m) (suc n) r input le le' =
        let (rc, frame, input1) = parse_frame E h input blank_frame in
        let (more, r1) = on_frame h connected resume r frame in
        let rest : rc ≡ complete
            → read_frames h connected resume m r1 input1
              ≡ read_frames h connected resume n r1 input1 =
          λ q.
            let shorter = parse_frame-Drains input blank_frame q in
            more_rounds m n r1 input1 (omega arith) (omega arith) in
        ap (λ t. if E.get_length input == 0 then (r, input) else t)
          (same_way rc _ _ _ _ (λ q. ap (λ t. if more then t else (r1, input1)) (rest q)))

    -- The loop of readcb ends by itself: with at least as many rounds as the input has bytes, it
    -- does what readcb does.
    pub readcb_total :
        (rounds : ℕ) (r : Request E) (input : E.Buffer)
        → E.get_length input ≤ rounds
        → read_frames h connected resume rounds r input ≡ readcb h connected resume r input
    unfolding readcb
    readcb_total rounds r input le =
        let size = L.get_length_lem input in
        more_rounds rounds (E.get_length input) r input (omega arith) (omega arith)
