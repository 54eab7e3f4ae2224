-- ===== src/Server/Messages.antt =====
-- src/server.cpp, handleClient: a line that starts with "MSG", and a plain line.
pub mod Muted
use smallchat.Base.{
  ℕ, ◌≡◌, refl, Bool, true, false, not, ◌&&◌, Option, none, some, List, [], ◌∷◌, ◌++◌, Bytes, codes,
  ltb, is_empty, if◌then◌else◌, lookup, bytes_eq,
}
use smallchat.Codec.Frames.{encode_error}
use smallchat.Codec.Message.{ChatMessage, MessageType, encode, decode, blank}
use smallchat.Server.History.{add_message_to_history, has_type}
use smallchat.Server.Send.{
  send, send_each, broadcast, notify, put_client, get_client_by_socket, get_client_by_name,
  room_sockets,
}
use smallchat.Server.State.{ClientInfo, ChatRoom, Server, Env}
use smallchat.Server.Talk.{message_of}

abbrev pub not_logged_in : ℕ → Server → Server
not_logged_in fd = send fd (encode_error (codes "Please login first using /login <name>"))

abbrev pub still_muted : ℕ → Server → Server
still_muted fd =
    send fd (encode_error (codes "You are muted. Please wait until the mute period ends."))

-- The checks in front of a message: a client that is logged in, and not muted or no longer.
unfoldable pub allowed : Env → ℕ → Server → (ClientInfo → Server → Server) → Server
allowed env fd s deliver = elim (get_client_by_socket fd s) [
  | none ↦ not_logged_in fd s
  | some c ↦
      if not c.is_logged_in
      then not_logged_in fd s
      else if not c.is_muted
      then deliver c s
      else if ltb c.mute_end_time env.now
      then deliver c (put_client fd (record c { is_muted = false }) s)
      else still_muted fd s
]

-- The line itself, as it was received, goes to the other client.
unfoldable pub deliver_private : ℕ → Bytes → ChatMessage → Server → Server
deliver_private fd line m s = add_message_to_history m (elim (get_client_by_name m.receiver s) [
  | none ↦ send fd (encode_error (codes "User " ++ (m.receiver ++ codes " not found"))) s
  | some target ↦ send target.socket_fd line s
])

unfoldable pub deliver_room : ℕ → Bytes → ChatMessage → Server → Server
deliver_room fd line m s = elim (lookup m.receiver s.rooms) [
  | none ↦ send fd (encode_error (codes "Room " ++ (m.receiver ++ codes " not found"))) s
  | some room ↦ add_message_to_history m (send_each (room_sockets m.receiver s) line s)
]

unfoldable pub deliver_message : ℕ → Bytes → ChatMessage → Server → Server
deliver_message fd line m s = notify m (
    if has_type m MessageType.private
    then deliver_private fd line m s
    else if has_type m MessageType.room_message
    then deliver_room fd line m s
    else add_message_to_history m (broadcast (encode m) s))

unfoldable pub handle_message : Env → ℕ → Bytes → Server → Server
handle_message env fd line s = elim (decode env.now line blank) [
  | none ↦ send fd (encode_error (codes "Invalid message format")) s
  | some m ↦ allowed env fd s λ c. deliver_message fd line m
]

unfoldable pub say_in_room : Env → ℕ → ClientInfo → Bytes → Server → Server
say_in_room env fd c line s = elim (lookup c.current_room s.rooms) [
  | none ↦ send fd (encode_error (codes "Room " ++ (c.current_room ++ codes " not found"))) s
  | some room ↦
      let m = message_of env c c.current_room MessageType.room_message line in
      notify m (add_message_to_history m (send_each (room_sockets c.current_room s) (encode m) s))
]

unfoldable pub say_to_all : Env → ClientInfo → Bytes → Server → Server
say_to_all env c line s =
    let m = message_of env c [] MessageType.broadcast line in
    broadcast (encode m) (notify m (add_message_to_history m s))

unfoldable pub say : Env → ℕ → Bytes → ClientInfo → Server → Server
say env fd line c s =
    if is_empty c.current_room then say_to_all env c line s else say_in_room env fd c line s

unfoldable pub handle_plain : Env → ℕ → Bytes → Server → Server
handle_plain env fd line s = allowed env fd s (say env fd line)
