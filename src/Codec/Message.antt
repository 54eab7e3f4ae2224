-- ===== src/Codec/Message.antt =====
-- include/common.h: ChatMessage and its types; src/common.cpp: ChatProtocol::encode and decode.
-- `decode` walks the text by a position, here by the text that is left from that position on.
pub mod RoundTrip
pub mod Line
use smallchat.Base.{
  ℕ, ◌≡◌, refl, Bool, true, false, not, Option, none, some, List, [], ◌∷◌, ◌++◌, Bytes, codes, cut,
  take, drop, eqb, equal, if◌then◌else◌, ◌>>=◌,
}
use smallchat.Codec.Base64.{base64_encode, base64_decode}
use smallchat.Std.Decimal.{ℤ, pos, negsuc, print_int, stoi}

-- ChatMessage::Type, by its numbers.
pub data MessageType : Type 0 where
  broadcast private text system login login_with_pass register logout : MessageType
  error ok welcome info user_list : MessageType
  create_room join_room leave_room room_list room_members room_message : MessageType
  file_transfer file_request file_response file_data read_receipt : MessageType

abbrev pub type_code : MessageType → ℤ
type_code broadcast = pos 0
type_code private = pos 1
type_code text = pos 2
type_code system = pos 3
type_code login = pos 4
type_code login_with_pass = pos 5
type_code register = pos 6
type_code logout = pos 7
type_code error = pos 8
type_code ok = pos 9
type_code welcome = pos 10
type_code info = pos 11
type_code user_list = pos 12
type_code create_room = pos 13
type_code join_room = pos 14
type_code leave_room = pos 15
type_code room_list = pos 16
type_code room_members = pos 17
type_code room_message = pos 18
type_code file_transfer = pos 19
type_code file_request = pos 20
type_code file_response = pos 21
type_code file_data = pos 22
type_code read_receipt = pos 23

-- `type` is the enumeration's `int`: `decode` stores any number that it reads there.
pub record ChatMessage : Type 0 where
  pub sender : Bytes
  pub receiver : Bytes
  pub content : Bytes
  pub timestamp : ℕ
  pub password : Bytes
  pub file_name : Bytes
  pub file_size : ℕ
  pub file_bytes : Bytes
  pub file_offset : ℕ
  pub file_transfer_complete : Bool
  pub type : ℤ
  pub message_id : Bytes
  pub read_status : List (Bytes × Bool)

-- A message as declared: the texts are empty, and the other fields stand for what memory held.
abbrev pub blank : ChatMessage
blank = record {
  sender = [];
  receiver = [];
  content = [];
  timestamp = 0;
  password = [];
  file_name = [];
  file_size = 0;
  file_bytes = [];
  file_offset = 0;
  file_transfer_complete = false;
  type = pos 0;
  message_id = [];
  read_status = [];
}

abbrev pub bar : ℕ
bar = b'|'

abbrev pub newline : ℕ
newline = b'\n'

unfoldable pub encode : ChatMessage → Bytes
encode m =
    codes "MSG|"
    ++ (m.sender
        ++ (bar
            ∷ (m.receiver
                ++ (bar
                    ∷ (print_int m.type
                        ++ (bar
                            ∷ (base64_encode m.content
                                ++ (bar ∷ (m.message_id ++ (newline ∷ []))))))))))

-- `if (!s.empty() && s.back() == '\n') s.pop_back();`
unfoldable pub strip_newline : Bytes → Bytes
strip_newline [] = []
strip_newline (c ∷ []) = if eqb c newline then [] else c ∷ []
strip_newline (c ∷ d ∷ s) = c ∷ strip_newline (d ∷ s)

-- The separator behind the prefix. At the end of the text the position moves past it, and the
-- search for the next separator finds nothing.
skip_separator : Bytes → Option Bytes
skip_separator [] = none
skip_separator (c ∷ s) = if eqb c bar then some s else none

-- The fields; `now` is the clock, and the message is the one that is filled in.
unfoldable pub decode_fields : ℕ → ChatMessage → Bytes → Option ChatMessage
decode_fields now message s = do
  (sender, s₁) ← cut bar s
  (receiver, s₂) ← cut bar s₁
  (type_str, s₃) ← cut bar s₂
  type ← stoi type_str
  (encoded_content, s₄) ← cut bar s₃
  some (record message {
    sender = sender;
    receiver = receiver;
    type = type;
    content = base64_decode encoded_content;
    message_id = strip_newline s₄;
    timestamp = now;
  })

unfoldable pub decode : ℕ → Bytes → ChatMessage → Option ChatMessage
unfolding decode_fields skip_separator
decode now line message =
    if equal (take 3 line) (codes "MSG")
    then skip_separator (drop 3 line) >>= decode_fields now message
    else none
