-- ===== src/WebSocket/Wire.antt =====
-- The bytes of a frame of src/httpd_websocket.c as the protocol lays them out, and what the header's
-- readers find in a prefix of them.
use luafan.Common.{
  ℕ, ◌+◌, ◌*◌, ◌%◌, ◌^◌, ◌≤◌, ◌<◌, ◌≡◌, Bool, false, none, List, [], ◌∷◌, ◌++◌, ltb, leb,
  if◌then◌else◌, length, All, bit_xor, get_or,
}
use luafan.Common.Words.{IsByte, le_bytes, be_bytes}
use luafan.ByteArray.State.{bytes_of}
use luafan.WebSocket.Frame.{Frame}

abbrev pub bit_of : Bool → ℕ
bit_of b = if b then 1 else 0

abbrev pub first_byte : Frame → ℕ
first_byte f =
    bit_of f.fin * 128 + bit_of f.rsv1 * 64 + bit_of f.rsv2 * 32 + bit_of f.rsv3 * 16 + f.opcode

abbrev pub length_code : ℕ → ℕ
length_code n = if ltb n 126 then n else if leb n 65535 then 126 else 127

-- The bytes of a longer length, highest first.
abbrev pub extension : ℕ → List ℕ
extension n = if ltb n 126 then [] else if leb n 65535 then be_bytes 2 n else be_bytes 8 n

abbrev pub key_bytes : Frame → List ℕ
key_bytes f = if f.masked then le_bytes 4 f.mask_key else []

-- Each octet combined by exclusive or with the octet of the key at its index modulo four, from the
-- index `i` on.
unfoldable pub masked_octets : List ℕ → ℕ → List ℕ → List ℕ
masked_octets key i [] = []
masked_octets key i (b ∷ bs) = bit_xor b (get_or key (i % 4) 0) ∷ masked_octets key (i + 1) bs

abbrev pub body : Frame → List ℕ
body f =
    let plain = bytes_of f.payload in
    if f.masked then masked_octets (le_bytes 4 f.mask_key) 0 plain else plain

abbrev pub wire : Frame → List ℕ
wire f =
    first_byte f
    ∷ (bit_of f.masked * 128 + length_code f.payload_len)
    ∷ (extension f.payload_len ++ (key_bytes f ++ body f))

-- What a frame in memory fulfils; the bound on the length is far above any memory.
pub record IsFrame (f : Frame) : Type 0 where
  pub opcode_small : f.opcode < 16
  pub key_small : f.mask_key < 2 ^ 32
  pub key_unused : f.masked ≡ false → f.mask_key ≡ 0
  pub bytes : All IsByte (bytes_of f.payload)
  pub len : length (bytes_of f.payload) ≡ f.payload_len
  pub len_small : f.payload_len ≤ 2 ^ 62
  pub absent : f.payload_len ≡ 0 → f.payload ≡ none
