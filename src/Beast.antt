-- ===== src/Beast.antt =====
-- src/web_server_impl.cpp (Boost.Beast, in place of web_server.cpp): the sessions, their write queues,
-- and what they make of a message. Each asynchronous call that is begun is an event.
pub mod Listener
pub mod Queue
pub mod Agree
pub mod Tests
use smallchat.Base.{
  ℕ, ◌≡◌, refl, Bool, true, false, not, Option, none, some, List, [], ◌∷◌, ◌++◌, map, Bytes, codes,
  cut, drop, eqb, equal, is_empty, if◌then◌else◌, lookup, insert, erase, bytes_eq, nat_eq, ◌>>=◌,
}
use smallchat.Server.Send.{broadcast, get_client_by_name, get_clients}
use smallchat.Server.State.{Server}
use smallchat.Server.Life.{set_websocket_broadcast_callback, set_websocket_send_to_callback}
use smallchat.Server.WebClients.{add_web_socket_client, remove_web_socket_client}
use smallchat.Web.{joined_names, substr_from, up_to_space}

-- A WebSocketSession; `written` are the messages that async_write has been called for, oldest first.
pub record Session : Type 0 where
  pub username : Bytes
  pub write_queue : List Bytes
  pub written : List Bytes
  -- async_read is called for the next message, async_close for the end
  pub reading : Bool
  pub closing : Bool

unfoldable pub new_session : Session
new_session = record {
  username = [];
  write_queue = [];
  written = [];
  reading = false;
  closing = false;
}

unfoldable pub do_write : Session → Session
do_write s = elim s.write_queue [ [] ↦ s | m ∷ _ ↦ record s { written = s.written ++ (m ∷ []) } ]

unfoldable pub send_message : Bytes → Session → Session
unfolding do_write
send_message message s =
    let pushed = record s { write_queue = s.write_queue ++ (message ∷ []) } in
    if is_empty s.write_queue then do_write pushed else pushed

-- `ok` says that there was no error.
unfoldable pub on_write : Bool → Session → Session
unfolding do_write
on_write ok s =
    let popped = record s { write_queue = drop 1 s.write_queue } in
    if ok then do_write popped else popped

-- The chat server, the sessions by name, which are weak pointers, and the sessions that are alive.
pub record Hub : Type 0 where
  pub server : Server
  pub ws_sessions : List (Bytes × ℕ)
  pub alive : List (ℕ × Session)

unfoldable pub send_to_session : ℕ → Bytes → Hub → Hub
unfolding send_message
send_to_session id message h = elim (lookup id h.alive) [
  | none ↦ h
  | some s ↦ record h { alive = insert id (send_message message s) h.alive }
]

abbrev is_alive : ℕ → Hub → Bool
is_alive id h = elim (lookup id h.alive) [ none ↦ false | some _ ↦ true ]

-- The loop over g_ws_sessions: a dead session is erased.
unfoldable pub broadcast_loop : Bytes → List (Bytes × ℕ) → Hub → List (Bytes × ℕ) × Hub
unfolding send_to_session
broadcast_loop message [] h = ([], h)
broadcast_loop message ((name, id) ∷ sessions) h =
    let (kept, end) = broadcast_loop message sessions (send_to_session id message h) in
    (if is_alive id h then (name, id) ∷ kept else kept, end)

unfoldable pub websocket_broadcast : Bytes → Hub → Hub
unfolding broadcast_loop
websocket_broadcast message h =
    let (kept, end) = broadcast_loop message h.ws_sessions h in record end { ws_sessions = kept }

unfoldable pub websocket_send_to : Bytes → Bytes → Hub → Hub
unfolding send_to_session
websocket_send_to client_name message h = elim (lookup client_name h.ws_sessions) [
  | none ↦ h
  | some id ↦ send_to_session id message h
]

unfoldable pub broadcast_all : Bytes → Hub → Hub
unfolding websocket_broadcast
broadcast_all message h =
    let sent = record h { server = broadcast message h.server } in
    if h.server.web_broadcast_callback then websocket_broadcast message sent else sent

-- A session changes its own members.
abbrev pub change : ℕ → (Session → Session) → Hub → Hub
change id f h = elim (lookup id h.alive) [
  | none ↦ h
  | some s ↦ record h { alive = insert id (f s) h.alive }
]

abbrev pub username_of : ℕ → Hub → Bytes
username_of id h = elim (lookup id h.alive) [ none ↦ [] | some s ↦ s.username ]

abbrev pub set_username : Bytes → Session → Session
set_username name s = record s { username = name }

unfoldable pub enter : ℕ → Bytes → Hub → Hub
unfolding add_web_socket_client
enter id username h = change id (set_username username) (record h {
  ws_sessions = insert username id h.ws_sessions;
  server = add_web_socket_client username id h.server;
})

unfoldable pub logged_in : ℕ → Bytes → Hub → Hub
unfolding broadcast_all send_to_session enter
logged_in id username h =
    broadcast_all (codes "[SYS] " ++ (username ++ codes " joined the chat via WebSocket")) (
      send_to_session id (codes "[SYS] Welcome, " ++ (username ++ codes "! You are logged in."))
        (enter id username h))

unfoldable pub beast_login : ℕ → Bytes → Hub → Option Hub
unfolding logged_in
beast_login id message h = do
  rest ← substr_from 7 message
  some (
      let username = up_to_space rest in
      elim (get_client_by_name username h.server) [
        | some _ ↦ send_to_session id (codes "[SYS] Error: Name already taken") h
        | none ↦ logged_in id username h
      ])

unfoldable pub forget_name : Bytes → Hub → Hub
unfolding remove_web_socket_client
forget_name username h = record h {
  server = remove_web_socket_client username h.server;
  ws_sessions = erase username h.ws_sessions;
}

-- The session goes first, and then the others are told.
unfoldable pub leave : ℕ → Hub → Hub
unfolding broadcast_all forget_name
leave id h =
    let username = username_of id h in
    let told =
      broadcast_all (codes "[SYS] " ++ (username ++ codes " left the chat"))
        (forget_name username h) in
    if is_empty username then h else told

abbrev pub close_session : Session → Session
close_session s = record s { username = []; closing = true }

unfoldable pub beast_quit : ℕ → Hub → Hub
unfolding leave
beast_quit id h = change id close_session (leave id h)

unfoldable pub beast_users : ℕ → Hub → Hub
unfolding send_to_session
beast_users id h =
    send_to_session id (codes "[Users] Online: " ++ joined_names (get_clients h.server)) h

unfoldable pub beast_command : ℕ → Bytes → Bytes → Hub → Option Hub
unfolding beast_login beast_quit beast_users
beast_command id cmd message h =
    if equal cmd (codes "/login")
    then beast_login id message h
    else if equal cmd (codes "/quit")
    then some (beast_quit id h)
    else if equal cmd (codes "/users")
    then some (beast_users id h)
    else some (broadcast_all message h)

unfoldable pub beast_text : ℕ → Bytes → Hub → Hub
unfolding broadcast_all send_to_session
beast_text id message h =
    let username = username_of id h in
    if is_empty username
    then send_to_session id (codes "[SYS] Please login first using /login <name>") h
    else broadcast_all (codes "[" ++ (username ++ (codes "]: " ++ message))) h

abbrev pub starts_with_slash : Bytes → Bool
starts_with_slash [] = false
starts_with_slash (c ∷ s) = eqb c b'/'

unfoldable pub process_message : ℕ → Bytes → Hub → Option Hub
unfolding beast_command beast_text
process_message id message h =
    if starts_with_slash message
    then beast_command id (up_to_space message) message h
    else some (beast_text id message h)

-- What async_read ends with: the other side has closed, another error, or a message.
pub data Read : Type 0 where
  closed failed : Read
  received : Bytes → Read

abbrev set_reading : Bool → Session → Session
set_reading reading s = record s { reading = reading }

-- on_read; without another read the session comes to its end.
unfoldable pub on_read : ℕ → Read → Hub → Option Hub
unfolding leave process_message
on_read id closed h = some (change id (set_reading false) (leave id h))
on_read id failed h = some (change id (set_reading false) h)
on_read id (received message) h = do
  processed ← process_message id message h
  some (change id (set_reading true) processed)

-- on_accept of a session; `ok` says that there was no error.
unfoldable pub on_accept : Bool → Session → Session
on_accept ok s = if ok then record s { reading = true } else s

-- The last pointer to a session is gone.
unfoldable pub expire : ℕ → Hub → Hub
expire id h = record h { alive = erase id h.alive }
