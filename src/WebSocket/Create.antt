-- ===== src/WebSocket/Create.antt =====
-- src/httpd_websocket.c: websocket_create_frame, and parsing what it creates.
use luafan.Common.{
  ℕ, ◌+◌, ◌*◌, ◌^◌, ◌≤◌, ◌<◌, ◌≡◌, ◌∙◌, refl, ap, bit_and, bit_or, Bool, true, false, Option, none,
  some, List, [], ◌∷◌, ◌++◌, ltb, leb, if◌then◌else◌, length, All, take_all, append_assoc, inl, inr,
  Bool-cases, arith,
}
use luafan.Common.Bits.{bit_and_mask, bit_or_fields}
use luafan.Common.Words.{IsByte}
use luafan.ByteArray.State.{Heap, bytes_of}
use luafan.WebSocket.EvBuffer.{EvBuffer, EvBufferLaws}
use mathlib.Core.Option
use luafan.WebSocket.Frame.{Frame, complete, add_length, fill_frame, create_frame, parse_frame}
use luafan.WebSocket.Wire.{bit_of, extension, length_code, wire, IsFrame}
use luafan.WebSocket.Parse.{parse_frame-wire}

abbrev is_nil : List ℕ → Bool
is_nil [] = true
is_nil (b ∷ bs) = false

-- What a peer makes of a frame that the server creates.
abbrev pub server_frame : ℕ → List ℕ → Bool → Frame
server_frame opcode payload fin = record {
  fin = fin;
  rsv1 = false;
  rsv2 = false;
  rsv3 = false;
  opcode = opcode;
  masked = false;
  payload_len = length payload;
  mask_key = 0;
  payload = if is_nil payload then none else some payload;
}

server_frame-IsFrame :
    (opcode : ℕ) (payload : List ℕ) (fin : Bool)
    → opcode < 16
    → All IsByte payload
    → length payload ≤ 2 ^ 62
    → IsFrame (server_frame opcode payload fin)
server_frame-IsFrame opcode [] fin op bytes small = record {
  opcode_small = op;
  key_small = omega arith;
  key_unused = λ q. refl;
  bytes = tt;
  len = refl;
  len_small = small;
  absent = λ q. refl;
}
server_frame-IsFrame opcode (b ∷ bs) fin op bytes small = record {
  opcode_small = op;
  key_small = omega arith;
  key_unused = λ q. refl;
  bytes = bytes;
  len = refl;
  len_small = small;
  absent = λ q. absurd (omega arith);
}

first_byte_made :
    (fin : Bool) (opcode : ℕ)
    → opcode < 16
    → bit_or (if fin then 0x80 else 0x00) (bit_and opcode 0x0f) ≡ bit_of fin * 128 + opcode
first_byte_made true opcode op =
    omega (arith, bit_and_mask 4 opcode, bit_or_fields 7 1 (bit_and opcode 0x0f))
first_byte_made false opcode op =
    omega (arith, bit_and_mask 4 opcode, bit_or_fields 7 0 (bit_and opcode 0x0f))

-- The flags that a server leaves at 0.
frame_head :
    (fin : Bool) (opcode c : ℕ) (tail : List ℕ)
    → (bit_of fin * 128 + opcode) ∷ c ∷ tail
      ≡ (bit_of fin * 128 + 0 + 0 + 0 + opcode) ∷ (0 + c) ∷ tail
frame_head fin opcode c tail =
    let first : bit_of fin * 128 + opcode ≡ bit_of fin * 128 + 0 + 0 + 0 + opcode = omega arith in
    let second : c ≡ 0 + c = omega arith in
    ap (λ (t : ℕ). t ∷ c ∷ tail) first
    ∙ ap (λ (t : ℕ). (bit_of fin * 128 + 0 + 0 + 0 + opcode) ∷ t ∷ tail) second

map-some :
    {A : Type 0} {g : A → A} (o : Option A) (b : A)
    → Option.map g o ≡ some b
    → (a : A) × (o ≡ some a) × (g a ≡ b)
map-some none b e = absurd (impossible e)
  where
    impossible : {A : Type 0} {c : A} → none ≡ some c → ⊥
    impossible q = cc
map-some (some a) b e = (a, refl, cc)

module _ (E : EvBuffer) (L : EvBufferLaws E) where
  add_length-contents :
      (b : E.Buffer) (n : ℕ)
      → L.contents (add_length E b n) ≡ L.contents b ++ (length_code n ∷ extension n)
  unfolding add_length
  add_length-contents b n = elim (Bool-cases (ltb n 126)) [
    | inl small ↦ rw small (L.add_lem b (n ∷ []))
    | inr large ↦ elim (Bool-cases (leb n 65535)) [
      | inl short ↦
          rw (large, short, L.add_lem, L.add_lem) (append_assoc (L.contents b) (126 ∷ []) _)
      | inr long ↦ rw (large, long, L.add_lem, L.add_lem) (append_assoc (L.contents b) (127 ∷ []) _)
    ]
  ]

  fill_frame-contents :
      (b : E.Buffer) (opcode : ℕ) (payload : List ℕ) (fin : Bool)
      → opcode < 16
      → L.contents b ≡ []
      → L.contents (fill_frame E b opcode (some payload) (length payload) fin)
        ≡ wire (server_frame opcode payload fin)
  unfolding fill_frame
  fill_frame-contents b opcode [] fin op e =
      rw (first_byte_made fin opcode op, add_length-contents, L.add_lem, e)
        (frame_head fin opcode _ [])
  fill_frame-contents b opcode (c ∷ cs) fin op e =
      let some_bytes : ltb 0 (length (c ∷ cs)) ≡ true = ground arith in
      rw
        (
          some_bytes,
          first_byte_made fin opcode op,
          L.add_lem,
          add_length-contents,
          L.add_lem,
          e,
          take_all (length (c ∷ cs)) (c ∷ cs) (omega arith),
        )
        (frame_head fin opcode _ _)

  -- The same where the payload may be missing.
  pub fill_frame-payload :
      (b : E.Buffer) (opcode : ℕ) (payload : Option (List ℕ)) (fin : Bool)
      → opcode < 16
      → L.contents b ≡ []
      → L.contents (fill_frame E b opcode payload (length (bytes_of payload)) fin)
        ≡ wire (server_frame opcode (bytes_of payload) fin)
  unfolding fill_frame
  fill_frame-payload b opcode (some payload) fin op e =
      fill_frame-contents b opcode payload fin op e
  fill_frame-payload b opcode none fin op e =
      rw (first_byte_made fin opcode op, add_length-contents, L.add_lem, e)
        (frame_head fin opcode _ [])

  -- The bytes of a created frame.
  pub create_frame-wire :
      (opcode : ℕ) (payload : List ℕ) (fin : Bool) (b : E.Buffer)
      → opcode < 16
      → create_frame E opcode (some payload) (length payload) fin ≡ some b
      → L.contents b ≡ wire (server_frame opcode payload fin)
  unfolding create_frame
  create_frame-wire opcode payload fin b op e =
      let (b0, made, same) = map-some E.make b e in
      rw⁻¹ same (fill_frame-contents b0 opcode payload fin op (L.make_lem b0 made))

  -- With a heap that grants what is asked, what create_frame makes of an opcode below 16 and a
  -- payload of at most 2 ^ 62 bytes is parsed back to them, and what stands behind it is left.
  pub parse_frame-create_frame :
      (h : Heap) (opcode : ℕ) (payload : List ℕ) (fin : Bool) (b input : E.Buffer) (rest : List ℕ)
      (frame : Frame)
      → ((n : ℕ) → h.grants n ≡ true)
      → opcode < 16
      → All IsByte payload
      → length payload ≤ 2 ^ 62
      → frame.mask_key ≡ 0
      → create_frame E opcode (some payload) (length payload) fin ≡ some b
      → L.contents input ≡ L.contents b ++ rest
      → (input' : E.Buffer) × (parse_frame E h input frame
          ≡ (complete, server_frame opcode payload fin, input'))
        × (L.contents input' ≡ rest)
  parse_frame-create_frame h opcode payload fin b input rest frame grants op bytes small blank e s =
      parse_frame-wire E L h (server_frame opcode payload fin)
        (server_frame-IsFrame opcode payload fin op bytes small) rest input frame grants blank
        (s ∙ ap (λ t. t ++ rest) (create_frame-wire opcode payload fin b op e))
