-- ===== src/Server/Leave.antt =====
-- src/server.cpp: removeClient and, in handleCommand, /quit. Without OPENSSL_FOUND there is no SSL
-- connection to end.
pub mod Join
pub mod Never
use smallchat.Base.{
  ℕ, ◌≡◌, refl, Bool, true, false, not, ◌&&◌, Option, none, some, List, [], ◌∷◌, ◌++◌, Bytes, codes,
  eqb, is_empty, if◌then◌else◌, lookup, insert, erase, nat_eq, bytes_eq,
}
use smallchat.Codec.Frames.{encode_success, encode_system_message}
use smallchat.Server.Rooms.{remove_member}
use smallchat.Server.Send.{send, emit, broadcast}
use smallchat.Server.State.{
  ClientInfo, Event, disconnects, closes, Server, Env, Fault, joins_itself, waits_for, throws,
  Outcome, returns, stops, ◌>>=◌,
}

-- The entry of `clients_` goes, and with it the one of its name.
unfoldable pub forget : ℕ → Server → Server
forget fd s = elim (lookup fd s.clients) [
  | none ↦ s
  | some c ↦ record s {
    name_to_socket = erase c.name s.name_to_socket;
    clients = erase fd s.clients;
  }
]

unfoldable pub name_of : Option ClientInfo → Bytes
name_of none = []
name_of (some c) = c.name

-- The client's thread is joined by the thread of the socket `caller`.
unfoldable pub join_thread : Env → ℕ → ℕ → Server → Outcome Server
join_thread env caller fd s = elim (lookup fd s.client_threads) [
  | none ↦ returns s
  | some joinable ↦
      let erased = record s { client_threads = erase fd s.client_threads } in
      if not joinable
      then returns erased
      else if eqb fd caller
      then stops joins_itself s
      else if env.has_returned fd
      then returns erased
      else stops (waits_for fd) s
]

unfoldable pub remove_client : Env → ℕ → ℕ → Server → Outcome Server
unfolding forget name_of join_thread
remove_client env caller fd s = do
  let name = name_of (lookup fd s.clients)
  joined ← join_thread env caller fd (emit (closes fd) (forget fd s))
  returns (
      if joined.disconnect_callback && not (is_empty name)
      then emit (disconnects fd name) joined
      else joined)

unfoldable pub quit : Env → ℕ → ClientInfo → Server → Outcome Server
quit env fd c s =
    let outside =
      broadcast (encode_system_message (c.name ++ (codes " left room: " ++ c.current_room)))
        (remove_member c.current_room c.name s) in
    let alone = if is_empty c.current_room then s else outside in
    remove_client env fd fd (send fd (encode_success (codes "Goodbye!")) alone)
