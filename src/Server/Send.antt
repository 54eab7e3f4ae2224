-- ===== src/Server/Send.antt =====
-- src/server.cpp: sending, looking clients up, and small changes to the tables.
use smallchat.Base.{
  ℕ, Option, none, some, List, [], ◌∷◌, ◌++◌, map, Bytes, if◌then◌else◌, lookup, insert, erase,
  nat_eq, bytes_eq, length, ◌>>=◌,
}
use smallchat.Codec.Frames.{encode_system_message}
use smallchat.Codec.Message.{ChatMessage}
use smallchat.Server.State.{ClientInfo, Event, sends, broadcasts_web, sends_web, notifies, Server}

abbrev pub emit : Event → Server → Server
emit e s = record s { out = s.out ++ (e ∷ []) }

abbrev pub emit_all : List Event → Server → Server
emit_all es s = record s { out = s.out ++ es }

-- sendToSocket
abbrev pub send : ℕ → Bytes → Server → Server
send fd message = emit (sends fd message)

-- A loop that sends one message to several sockets.
abbrev pub send_each : List ℕ → Bytes → Server → Server
send_each fds message = emit_all (map (λ fd. sends fd message) fds)

abbrev sockets : List (ℕ × ClientInfo) → List ℕ
sockets = map λ entry. entry.0

unfoldable pub send_system_message : Bytes → Server → Server
send_system_message message s = send_each (sockets s.clients) (encode_system_message message) s

unfoldable pub broadcast : Bytes → Server → Server
broadcast message s =
    let sent = send_each (sockets s.clients) message s in
    if s.web_broadcast_callback then emit (broadcasts_web message) sent else sent

unfoldable pub send_to_client : Bytes → Bytes → Server → Server
send_to_client client_name message s = elim (lookup client_name s.name_to_socket) [
  | some fd ↦ send fd message s
  | none ↦ if s.web_send_to_callback then emit (sends_web client_name message) s else s
]

-- `if (message_callback_) message_callback_(msg)`
abbrev pub notify : ChatMessage → Server → Server
notify m s = if s.message_callback then emit (notifies m) s else s

unfoldable pub get_client_by_socket : ℕ → Server → Option ClientInfo
get_client_by_socket fd s = lookup fd s.clients

-- getClientByName and getClientByNameUnlocked
unfoldable pub get_client_by_name : Bytes → Server → Option ClientInfo
get_client_by_name name s = do fd ← lookup name s.name_to_socket; lookup fd s.clients

unfoldable pub get_client_count : Server → ℕ
get_client_count s = length s.clients

unfoldable pub get_clients : Server → List ClientInfo
get_clients s = map (λ entry. entry.1) s.clients

-- A client is changed through the reference that `clients_` holds.
abbrev pub put_client : ℕ → ClientInfo → Server → Server
put_client fd c s = record s { clients = insert fd c s.clients }

-- `name_to_socket_.erase(client.name); client.name = name; name_to_socket_[name] = client_socket`
unfoldable pub rename : ℕ → ClientInfo → Bytes → Server → Server
rename fd c name s = record (put_client fd (record c { name = name }) s) {
  name_to_socket = insert name fd (erase c.name s.name_to_socket);
}

-- The sockets of the members of a room that are in `name_to_socket_`.
unfoldable pub member_sockets_of : List Bytes → List (Bytes × ℕ) → List ℕ
member_sockets_of [] names = []
member_sockets_of (m ∷ ms) names = elim (lookup m names) [
  | none ↦ member_sockets_of ms names
  | some fd ↦ fd ∷ member_sockets_of ms names
]

unfoldable pub room_sockets : Bytes → Server → List ℕ
unfolding member_sockets_of
room_sockets room s = elim (lookup room s.rooms) [
  | none ↦ []
  | some r ↦ member_sockets_of r.members s.name_to_socket
]
