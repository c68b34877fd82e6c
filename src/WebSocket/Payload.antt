-- ===== src/WebSocket/Payload.antt =====
-- src/httpd_websocket.c: the mask and the payload of a frame, behind the header's length.
use luafan.Common.{
  ℕ, suc, ◌+◌, ◌-◌, ◌%◌, ◌≤◌, ◌<◌, ◌≡◌, ◌∙◌, refl, sym, ap, true, Option, none, some, List, [], ◌∷◌,
  ◌++◌, ltb, if◌then◌else◌, length, take, drop, slice, length-append, slice-take,
  take-length_append, drop-length_append, append_assoc, drop-drop, inl, inr, Bool-cases,
  length-tabulate, blit_whole, tabulate, arith,
}
use luafan.Common.Words.{le_bytes, le_value, length-le_bytes, length-be_bytes, le_value-le_bytes}
use luafan.ByteArray.State.{Heap, bytes_of}
use luafan.ByteArray.Grow.{malloc}
use luafan.WebSocket.EvBuffer.{EvBuffer, EvBufferLaws}
use luafan.WebSocket.Frame.{Frame, complete, mask_unmask, fill_payload, read_payload}
use luafan.WebSocket.Mask.{mask_unmask-masked_octets, mask_unmask_twice, length-mask_unmask}
use luafan.WebSocket.Wire.{extension, key_bytes, body, wire, IsFrame}

pub length-extension : (n : ℕ) → length (extension n) ≤ 8
length-extension n = ground (arith, length-be_bytes 2 n, length-be_bytes 8 n)

pub length-key_bytes : (f : Frame) → length (key_bytes f) ≡ (if f.masked then 4 else 0)
length-key_bytes f = elim (Bool-cases f.masked) [
  | inl m ↦ rw m (length-le_bytes 4 f.mask_key)
  | inr m ↦ rw m refl
]

length-body : (f : Frame) → IsFrame f → length (body f) ≡ f.payload_len
length-body f ok =
    let size = ok.len in
    let same =
      mask_unmask-masked_octets (bytes_of f.payload) f.payload_len f.mask_key (omega arith) in
    elim (Bool-cases f.masked) [
      | inl m ↦ rw m (
          ap length (sym same)
          ∙ length-mask_unmask (bytes_of f.payload) f.payload_len f.mask_key
          ∙ ok.len)
      | inr m ↦ rw m ok.len
    ]

pub length-wire :
    (f : Frame)
    → IsFrame f
    → length (wire f) ≡ 2 + length (extension f.payload_len) + length (key_bytes f) + f.payload_len
length-wire f ok = omega (
  arith,
  length-append (extension f.payload_len) (key_bytes f ++ body f),
  length-append (key_bytes f) (body f),
  length-body f ok,
)

drop_front :
    (x y : ℕ) (bs cs ds : List ℕ) → drop (2 + length bs) (x ∷ y ∷ ((bs ++ cs) ++ ds)) ≡ cs ++ ds
drop_front x y bs cs ds =
    let k = length bs in
    let same : 2 + k ≡ suc (suc k) = omega arith in
    rw (same, append_assoc bs cs ds) (drop-length_append bs (cs ++ ds))

key_front : (k : ℕ) (cs ds : List ℕ) → take 4 ((le_bytes 4 k ++ cs) ++ ds) ≡ le_bytes 4 k
key_front k cs ds =
    let size = length-le_bytes 4 k in
    let front = take-length_append (le_bytes 4 k) (cs ++ ds) in
    rw (append_assoc (le_bytes 4 k) cs ds) (rw size at front)

drop_key : (k : ℕ) (cs ds : List ℕ) → drop 4 ((le_bytes 4 k ++ cs) ++ ds) ≡ cs ++ ds
drop_key k cs ds =
    let size = length-le_bytes 4 k in
    let behind = drop-length_append (le_bytes 4 k) (cs ++ ds) in
    rw (append_assoc (le_bytes 4 k) cs ds) (rw size at behind)

-- The key in a prefix that holds it.
key_found :
    (f : Frame) (rest : List ℕ) (p : ℕ)
    → IsFrame f
    → f.masked ≡ true
    → 2 + length (extension f.payload_len) + 4 ≤ p
    → le_value (slice (take p (wire f ++ rest)) (2 + length (extension f.payload_len)) 4)
      ≡ f.mask_key
key_found f rest p ok m room =
    let cs = key_bytes f ++ body f in
    let size = 2 + length (extension f.payload_len) in
    let behind : drop size (wire f ++ rest) ≡ cs ++ rest =
      drop_front _ _ (extension f.payload_len) cs rest in
    let key : take 4 (cs ++ rest) ≡ le_bytes 4 f.mask_key = rw m (key_front f.mask_key _ rest) in
    ap le_value (slice-take p size 4 (wire f ++ rest) room ∙ ap (take 4) behind ∙ key)
    ∙ le_value-le_bytes 4 f.mask_key (omega (arith, ok.key_small))

-- What is left behind the header.
pub drop_header :
    (f : Frame) (rest : List ℕ)
    → drop
        (if f.masked
          then 2 + length (extension f.payload_len) + 4
          else 2 + length (extension f.payload_len))
        (wire f ++ rest)
      ≡ body f ++ rest
drop_header f rest =
    let size = 2 + length (extension f.payload_len) in
    let cs = key_bytes f ++ body f in
    let behind : drop size (wire f ++ rest) ≡ cs ++ rest =
      drop_front _ _ (extension f.payload_len) cs rest in
    elim (Bool-cases f.masked) [
      | inl m ↦
          let key : drop 4 ((key_bytes f ++ body f) ++ rest) ≡ body f ++ rest =
            rw m (drop_key f.mask_key _ rest) in
          let deep : drop (size + 4) (wire f ++ rest) ≡ body f ++ rest =
            sym (drop-drop 4 size (wire f ++ rest)) ∙ ap (drop 4) behind ∙ key in
          rw m (rw m at deep)
      | inr m ↦ rw m (rw m at behind)
    ]

-- The key that the parser keeps: the frame's, or the one of the empty record it starts with.
pub key_read :
    (f : Frame) (rest : List ℕ) (p : ℕ) (frame : Frame)
    → IsFrame f
    → frame.mask_key ≡ 0
    → (f.masked ≡ true → 2 + length (extension f.payload_len) + 4 ≤ p)
    → (if f.masked
        then le_value (
            slice
              (take p (wire f ++ rest))
              ((if f.masked
                  then 2 + length (extension f.payload_len) + 4
                  else 2 + length (extension f.payload_len))
                - 4)
              4)
        else frame.mask_key)
      ≡ f.mask_key
key_read f rest p frame ok blank room =
    let size = 2 + length (extension f.payload_len) in
    elim (Bool-cases f.masked) [
      | inl m ↦
          let back : size + 4 - 4 ≡ size = omega arith in
          rw (m, back) (rw m at (key_found f rest p ok m (room m)))
      | inr m ↦ rw m (blank ∙ sym (ok.key_unused m))
    ]

malloc_granted :
    (h : Heap) (n : ℕ)
    → ((k : ℕ) → h.grants k ≡ true)
    → (block : List ℕ) × (malloc h n ≡ some block) × (length block ≡ n)
unfolding malloc
malloc_granted h n grants =
    let byte : ℕ → ℕ = λ i. h.garbage i % 256 in
    (tabulate byte 0 n, rw (grants n) refl, length-tabulate byte 0 n)

length_zero : (bs : List ℕ) → length bs ≡ 0 → bs ≡ []
length_zero [] h = refl
length_zero (b ∷ bs) h = absurd (omega arith)

-- Masking the bytes on the wire gives back the payload.
plain_lem :
    (f : Frame)
    → IsFrame f
    → (if f.masked then mask_unmask (body f) f.payload_len f.mask_key else body f)
      ≡ bytes_of f.payload
plain_lem f ok =
    let size = ok.len in
    let same =
      mask_unmask-masked_octets (bytes_of f.payload) f.payload_len f.mask_key (omega arith) in
    elim (Bool-cases f.masked) [
      | inl m ↦ rw m (
          ap (λ t. mask_unmask t f.payload_len f.mask_key) (sym same)
          ∙ mask_unmask_twice (bytes_of f.payload) f.payload_len f.mask_key ok.bytes)
      | inr m ↦ rw m refl
    ]

some_payload : (o : Option (List ℕ)) → 0 < length (bytes_of o) → some (bytes_of o) ≡ o
some_payload none h = absurd (omega arith)
some_payload (some bs) h = refl

-- The payload behind the header, where the heap grants it.
pub read_payload-wire :
    (E : EvBuffer) (L : EvBufferLaws E) (h : Heap) (f : Frame) (rest : List ℕ) (b : E.Buffer)
    (old : Option (List ℕ))
    → IsFrame f
    → ((n : ℕ) → h.grants n ≡ true)
    → L.contents b ≡ body f ++ rest
    → (input' : E.Buffer) × (read_payload E h (record f { payload = old }) b
        ≡ (complete, f, input'))
      × (L.contents input' ≡ rest)
unfolding read_payload fill_payload
read_payload-wire E L h f rest b old ok grants e =
    let n = f.payload_len in
    let size = length-body f ok in
    let len = ok.len in
    elim (Bool-cases (ltb 0 n)) [
      | inl some_bytes ↦
          let (block, got, fits) = malloc_granted h n grants in
          let front = take-length_append (body f) rest in
          let behind = drop-length_append (body f) rest in
          let removed : (E.remove b n).0 ≡ body f =
            L.removed_lem b n ∙ ap (take n) e ∙ rw size at front in
          let left : L.contents (E.remove b n).1 ≡ rest =
            L.remove_lem b n ∙ ap (drop n) e ∙ rw size at behind in
          let stored = blit_whole block (body f) (size ∙ sym fits) in
          let plain = plain_lem f ok in
          let same = some_payload f.payload (ground arith) in
          ((E.remove b n).1, rw (some_bytes, got, removed, stored, plain, same) refl, left)
      | inr nothing ↦
          let gone : f.payload ≡ none = ok.absent (ground arith) in
          let empty : body f ≡ [] = length_zero (body f) (ground arith) in
          (
            b,
            rw nothing (ap (λ x. (complete, record f { payload = x }, b)) (sym gone)),
            e ∙ ap (λ t. t ++ rest) empty,
          )
    ]
