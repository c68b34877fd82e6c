-- ===== src/Stream/Tests.antt =====
-- fan.stream at concrete inputs.
use luafan.Common.{true, ℕ, ◌+◌, ◌-◌, ◌≡◌, refl, none, some, List, [], ◌∷◌, length, map, arith}
use luafan.Common.Int.{negsuc}
use luafan.ByteArray.State.{ByteArray}
use luafan.ByteArray.Contents.{unread}
use luafan.ByteArray.Samples.{roomy, blank, draining, draining-IsValid, blank-IsWriting}
use luafan.Stream.Add.{prepare_get}
use luafan.Stream.Get.{get_string, signed_24}
use luafan.Stream.Varint.{encode, decode}
use luafan.Stream.Fixed.{bytes_24, pattern_24, signed_24-bytes_24}
use luafan.Stream.Text.{get_string_short, get_string_no_length}
use luafan.Stream.Message.{Field, u8, u30, s24, text, add_fields, get_fields}
use luafan.Stream.RoundTrip.{get_fields-add_fields}

two_groups : encode 5 300 ≡ 172 ∷ 2 ∷ []
unfolding encode
two_groups = refl

abbrev message : List Field
message = u8 200 ∷ u30 300 ∷ s24 (negsuc 4) ∷ text (104 ∷ 105 ∷ []) ∷ []

get_fields-add_fields_example :
    get_fields message (prepare_get (add_fields roomy blank message)).1 ≡ map some message
get_fields-add_fields_example =
    get_fields-add_fields roomy (λ n. refl) message blank (omega arith) blank-IsWriting refl refl
      (unfold encode in omega arith)

-- five bytes, all with the top bit set
abbrev endless : ByteArray
endless = record {
  offset = 0;
  total = 6;
  mark = 0;
  buffer = some (255 ∷ 255 ∷ 255 ∷ 255 ∷ 255 ∷ 1 ∷ []);
  buflen = 6;
  reading = true;
  wrapbuffer = true;
}

signed_24-bytes_24_example : signed_24 (bytes_24 (pattern_24 (negsuc 4))) ≡ negsuc 4
signed_24-bytes_24_example = signed_24-bytes_24 (negsuc 4) (omega arith)

abbrev behind : List ℕ
behind = 9 ∷ []

-- a length of 8 before a single byte
get_string_short_example :
    get_string draining
    ≡ (record { buff = none; buflen = 8 + (length (unread draining) - length behind) }, draining)
get_string_short_example =
    get_string_short draining 8 behind draining-IsValid refl refl (unfold decode in refl)
      (omega arith)

-- a lone byte that says that more of the length follows
abbrev cut_length : ByteArray
cut_length = record {
  offset = 0;
  total = 1;
  mark = 0;
  buffer = some (130 ∷ []);
  buflen = 1;
  reading = true;
  wrapbuffer = true;
}

get_string_no_length_example :
    get_string cut_length
    ≡ (record { buff = none; buflen = length (unread cut_length) + 1 }, cut_length)
get_string_no_length_example =
    get_string_no_length cut_length (omega arith) refl refl (unfold decode in refl)
