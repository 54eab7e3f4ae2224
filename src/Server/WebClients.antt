-- ===== src/Server/WebClients.antt =====
-- src/server.cpp: websocket_clients_ of ChatServer, the connections of web users by their names.
use smallchat.Base.{
  ℕ, Bool, true, false, none, some, Bytes, length, lookup, insert, erase, bytes_eq,
}
use smallchat.Server.State.{Server}

unfoldable pub add_web_socket_client : Bytes → ℕ → Server → Server
add_web_socket_client client_name wsi s = record s {
  websocket_clients = insert client_name wsi s.websocket_clients;
}

unfoldable pub remove_web_socket_client : Bytes → Server → Server
remove_web_socket_client client_name s = record s {
  websocket_clients = erase client_name s.websocket_clients;
}

unfoldable pub has_web_socket_client : Bytes → Server → Bool
has_web_socket_client client_name s = elim (lookup client_name s.websocket_clients) [
  | none ↦ false
  | some _ ↦ true
]

unfoldable pub get_web_socket_client_count : Server → ℕ
get_web_socket_client_count s = length s.websocket_clients
