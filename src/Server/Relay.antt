-- ===== src/Server/Relay.antt =====
-- src/server.cpp, handleClient: the lines FILE_TRANSFER, FILE_REQUEST, FILE_RESPONSE, FILE_DATA and
-- READ_RECEIPT. `line` has no newline any more; each handler looks for one behind the last field.

pub mod Ignored
use smallchat.Base.{
  ℕ, ◌+◌, ◌≡◌, refl, Bool, true, false, not, ◌&&◌, Option, none, some, List, [], ◌∷◌, ◌++◌, map,
  Bytes, codes, cut, drop, eqb, equal, is_empty, if◌then◌else◌, lookup, insert, bytes_eq,
}
use smallchat.Codec.Frames.{encode_error, encode_system_message}
use smallchat.Codec.Message.{ChatMessage, bar, newline}
use smallchat.Server.Send.{send, send_each, get_client_by_name}
use smallchat.Server.State.{ClientInfo, Server, Fault, throws, Outcome, returns, stops}
use smallchat.Std.Decimal.{stoull}

-- What reading the fields comes to: `continue`, an exception of std::stoull, or the receiver.
pub data Fields : Type 0 where
  skipped malformed : Fields
  receiver : Bytes → Fields

-- The next field up to a separator, or `continue`.
abbrev field : ℕ → Bytes → (Bytes → Bytes → Fields) → Fields
field sep s read = elim (cut sep s) [ none ↦ skipped | some (f, rest) ↦ read f rest ]

-- std::stoull of a field.
abbrev number : Bytes → Fields → Fields
number s next = elim (stoull s) [ none ↦ malformed | some n ↦ next ]

unfoldable pub transfer_fields : Bytes → Fields
transfer_fields s = field bar s λ sender s₁.
    field bar s₁
      λ to s₂. field bar s₂ λ file_name s₃. field newline s₃ λ size s₄. number size (receiver to)

unfoldable pub request_fields : Bytes → Fields
request_fields s =
    field bar s λ sender s₁. field bar s₁ λ to s₂. field newline s₂ λ file_name s₃. receiver to

unfoldable pub response_fields : Bytes → Fields
response_fields s = field bar s λ sender s₁.
    field bar s₁ λ to s₂. field bar s₂ λ file_name s₃. field newline s₃ λ accepted s₄. receiver to

unfoldable pub data_fields : Bytes → Fields
data_fields s = field bar s λ sender s₁. field bar s₁ λ to s₂. field bar s₂ λ file_name s₃.
    field bar s₃ λ offset s₄.
      number offset (field bar s₄ λ file_data s₅. field newline s₅ λ complete s₆. receiver to)

-- The logged-in clients but the sender.
unfoldable pub others : ℕ → List (ℕ × ClientInfo) → List ℕ
others fd [] = []
others fd ((socket_fd, c) ∷ cs) =
    if c.is_logged_in && not (eqb socket_fd fd) then socket_fd ∷ others fd cs else others fd cs

unfoldable pub forward : ℕ → Bytes → Bytes → Server → Server
forward fd line to s = elim (get_client_by_name to s) [
  | none ↦ send fd (encode_error (codes "User " ++ (to ++ codes " not found"))) s
  | some target ↦ send target.socket_fd line s
]

unfoldable pub forward_or_all : ℕ → Bytes → Bytes → Server → Server
unfolding others forward
forward_or_all fd line to s =
    if is_empty to then send_each (others fd s.clients) line s else forward fd line to s

unfoldable pub relay : (Bytes → Server → Server) → Fields → Server → Outcome Server
relay deliver skipped s = returns s
relay deliver malformed s = stops throws s
relay deliver (receiver to) s = returns (deliver to s)

unfoldable pub handle_file_transfer : ℕ → Bytes → Server → Outcome Server
unfolding relay forward_or_all transfer_fields
handle_file_transfer fd line = relay (forward_or_all fd line) (transfer_fields (drop 14 line))

unfoldable pub handle_file_request : ℕ → Bytes → Server → Outcome Server
unfolding relay forward request_fields
handle_file_request fd line = relay (forward fd line) (request_fields (drop 13 line))

unfoldable pub handle_file_response : ℕ → Bytes → Server → Outcome Server
unfolding relay forward response_fields
handle_file_response fd line = relay (forward fd line) (response_fields (drop 14 line))

unfoldable pub handle_file_data : ℕ → Bytes → Server → Outcome Server
unfolding relay forward_or_all data_fields
handle_file_data fd line = relay (forward_or_all fd line) (data_fields (drop 10 line))

-- The first message with the id gets the mark: its sender, and the history after.
unfoldable pub mark : Bytes → Bytes → List ChatMessage → Option (Bytes × List ChatMessage)
mark message_id user [] = none
mark message_id user (m ∷ ms) =
    let later : Option (Bytes × List ChatMessage) = elim (mark message_id user ms) [
      | none ↦ none
      | some (sender, rest) ↦ some (sender, m ∷ rest)
    ] in
    if equal m.message_id message_id
    then some (m.sender, record m { read_status = insert user true m.read_status } ∷ ms)
    else later

unfoldable pub tell_sender : Bytes → Bytes → Server → Server
tell_sender sender text s = elim (lookup sender s.name_to_socket) [
  | none ↦ s
  | some fd ↦ send fd (encode_system_message text) s
]

unfoldable pub receipt_global : Bytes → Bytes → Server → Server
unfolding mark tell_sender
receipt_global message_id user s = elim (mark message_id user s.message_history) [
  | none ↦ s
  | some (sender, history) ↦
      tell_sender sender (user ++ codes " has read your message")
        (record s { message_history = history })
]

-- The rooms in turn: the histories after, and the state with what was sent.
unfoldable pub receipt_rooms :
    Bytes
    → Bytes
    → List (Bytes × List ChatMessage)
    → Server
    → List (Bytes × List ChatMessage) × Server
unfolding mark tell_sender
receipt_rooms message_id user [] s = ([], s)
receipt_rooms message_id user ((room_name, messages) ∷ rooms) s =
    let found = mark message_id user messages in
    let s' : Server = elim found [
      | none ↦ s
      | some (sender, _) ↦
          tell_sender sender (user ++ (codes " has read your message in room " ++ room_name)) s
    ] in
    let messages' : List ChatMessage = elim found [ none ↦ messages | some (_, after) ↦ after ] in
    let later = receipt_rooms message_id user rooms s' in
    ((room_name, messages') ∷ later.0, later.1)

unfoldable pub receipt : Bytes → Bytes → Server → Server
unfolding receipt_global receipt_rooms
receipt message_id user s =
    let marked = receipt_global message_id user s in
    let (histories, told) = receipt_rooms message_id user marked.room_message_history marked in
    record told { room_message_history = histories }

unfoldable pub handle_read_receipt : Bytes → Server → Server
unfolding receipt
handle_read_receipt line s = elim (cut bar (drop 13 line)) [
  | none ↦ s
  | some (message_id, rest) ↦ (elim (cut newline rest) [
    | none ↦ s
    | some (user, _) ↦ receipt message_id user s
  ])
]
