-- ===== src/Codec/Tests.antt =====
-- The codec at concrete inputs: src/common.cpp, and the receive buffers.
use smallchat.Base.{◌≡◌, refl, some, List, [], ◌∷◌, Bytes, codes, arith}
use smallchat.Codec.Base64.{
  base64_encode, base64_decode, quad, encode_end, take_sextet, index_of, decode_end,
}
use smallchat.Codec.Base64.RoundTrip.{IsBytes}
use smallchat.Codec.Frames.{encode_user_list, get_message_type}
use smallchat.Codec.Message.{ChatMessage, blank, encode, decode}
use smallchat.Codec.Message.RoundTrip.{IsSendable, received, decode-encode_message}
use smallchat.Std.Decimal.{negsuc, print}

encode_run : base64_encode (codes "Hello") ≡ codes "SGVsbG8="
unfolding base64_encode quad encode_end
encode_run = refl

decode_run : base64_decode (codes "SGVsbG8=") ≡ codes "Hello"
unfolding base64_decode take_sextet index_of decode_end
decode_run = refl

users_run : encode_user_list (codes "ann" ∷ codes "bob" ∷ []) ≡ codes "USERS|2|ann|bob\n"
unfolding encode_user_list print
users_run = refl

type_run : get_message_type (0 ∷ 0 ∷ 0 ∷ 9 ∷ 255 ∷ 255 ∷ 255 ∷ 254 ∷ []) ≡ negsuc 1
unfolding get_message_type
type_run = refl

abbrev four_bytes : Bytes
four_bytes = 0 ∷ 124 ∷ 10 ∷ 255 ∷ []

four_bytes-IsBytes : IsBytes four_bytes
four_bytes-IsBytes = (omega arith, (omega arith, (omega arith, (omega arith, tt))))

abbrev greeting : ChatMessage
greeting = record blank {
  sender = codes "ann";
  receiver = codes "bob";
  type = negsuc 4;
  content = four_bytes;
  message_id = codes "1_2";
}

greeting-IsSendable : IsSendable greeting
greeting-IsSendable = record {
  sender_plain = ground arith;
  receiver_plain = ground arith;
  type_fits = ground arith;
  content_bytes = four_bytes-IsBytes;
}

decode-encode_message_example : decode 7 (encode greeting) blank ≡ some (received 7 greeting blank)
decode-encode_message_example = decode-encode_message 7 greeting blank greeting-IsSendable

-- Two lines, cut in two ways.
abbrev halves : List Bytes
halves = codes "ab\nc" ∷ codes "d\n" ∷ []

abbrev thirds : List Bytes
thirds = codes "a" ∷ codes "b\ncd" ∷ codes "\n" ∷ []
