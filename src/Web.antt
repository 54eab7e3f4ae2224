-- ===== src/Web.antt =====
-- src/web_server.cpp (libwebsockets, the one that CMakeLists.txt builds): the sessions and
-- callback_websocket. What lws_write and lws_close_reason do is a list of events.
pub mod Service
pub mod Total
pub mod Page
pub mod Sessions
pub mod Tests
use smallchat.Base.{
  ℕ, ◌-◌, ◌≡◌, refl, Bool, true, false, not, Option, none, some, List, [], ◌∷◌, ◌++◌, map, Bytes,
  codes, cut, drop, eqb, equal, leb, length, is_empty, if◌then◌else◌, lookup, insert, erase,
  bytes_eq, nat_eq, ◌>>=◌,
}
use smallchat.Server.Send.{broadcast, get_client_by_name, get_clients}
use smallchat.Server.State.{ClientInfo, Server}

pub data Written : Type 0 where
  -- lws_write(wsi, message)
  writes : ℕ → Bytes → Written
  -- lws_close_reason(wsi)
  closes : ℕ → Written

-- The chat server, g_ws_sessions, the SessionData of each connection and what was written.
pub record Web : Type 0 where
  pub server : Server
  pub sessions : List (Bytes × ℕ)
  pub usernames : List (ℕ × Bytes)
  pub written : List Written

abbrev pub write : ℕ → Bytes → Web → Web
write wsi message w = record w { written = w.written ++ (writes wsi message ∷ []) }

-- The callback for broadcasts: every session gets the message.
unfoldable pub websocket_broadcast : Bytes → Web → Web
websocket_broadcast message w = record w {
  written = w.written ++ map (λ entry. writes entry.1 message) w.sessions;
}

unfoldable pub websocket_send_to : Bytes → Bytes → Web → Web
websocket_send_to client_name message w = elim (lookup client_name w.sessions) [
  | none ↦ w
  | some wsi ↦ write wsi message w
]

-- `g_chat_server->broadcast`, whose web callback is `websocket_broadcast`.
unfoldable pub broadcast_all : Bytes → Web → Web
unfolding websocket_broadcast
broadcast_all message w =
    let sent = record w { server = broadcast message w.server } in
    if w.server.web_broadcast_callback then websocket_broadcast message sent else sent

abbrev pub username_of : ℕ → Web → Bytes
username_of wsi w = elim (lookup wsi w.usernames) [ none ↦ [] | some name ↦ name ]

-- The text up to the first space, or all of it.
unfoldable pub up_to_space : Bytes → Bytes
up_to_space s = elim (cut b' ' s) [ none ↦ s | some (f, _) ↦ f ]

-- `s.substr(pos)`: std::out_of_range if `pos` is beyond the end.
unfoldable pub substr_from : ℕ → Bytes → Option Bytes
substr_from pos s = if leb pos (length s) then some (drop pos s) else none

unfoldable pub logged_in : ℕ → Bytes → Web → Web
logged_in wsi username w =
    broadcast_all (codes "[SYS] " ++ (username ++ codes " joined the chat via WebSocket")) (
      write wsi (codes "[SYS] Welcome, " ++ (username ++ codes "! You are logged in.")) (record w {
        usernames = insert wsi username w.usernames;
        sessions = insert username wsi w.sessions;
      }))

unfoldable pub web_login : ℕ → Bytes → Web → Option Web
unfolding logged_in
web_login wsi message w = do
  rest ← substr_from 7 message
  some (
      let username = up_to_space rest in
      elim (get_client_by_name username w.server) [
        | some _ ↦ write wsi (codes "[SYS] Error: Name already taken") w
        | none ↦ logged_in wsi username w
      ])

-- The user leaves: the others are told first, and then the session goes.
unfoldable pub leave : ℕ → Web → Web
leave wsi w =
    let username = username_of wsi w in
    let told = broadcast_all (codes "[SYS] " ++ (username ++ codes " left the chat")) w in
    if is_empty username then w else record told { sessions = erase username told.sessions }

unfoldable pub web_quit : ℕ → Web → Web
unfolding leave
web_quit wsi w =
    let gone = leave wsi w in
    record gone {
      usernames = insert wsi [] gone.usernames;
      written = gone.written ++ (closes wsi ∷ []);
    }

unfoldable pub joined_names : List ClientInfo → Bytes
joined_names [] = []
joined_names (c ∷ []) = c.name
joined_names (c ∷ d ∷ cs) = c.name ++ (codes ", " ++ joined_names (d ∷ cs))

unfoldable pub web_users : ℕ → Web → Web
unfolding joined_names
web_users wsi w = write wsi (codes "[Users] Online: " ++ joined_names (get_clients w.server)) w

unfoldable pub web_command : ℕ → Bytes → Bytes → Web → Option Web
unfolding web_login web_quit web_users
web_command wsi cmd message w =
    if equal cmd (codes "/login")
    then web_login wsi message w
    else if equal cmd (codes "/quit")
    then some (web_quit wsi w)
    else if equal cmd (codes "/users")
    then some (web_users wsi w)
    else some (broadcast_all message w)

unfoldable pub web_text : ℕ → Bytes → Web → Web
web_text wsi message w =
    let username = username_of wsi w in
    if is_empty username
    then write wsi (codes "[SYS] Please login first using /login <name>") w
    else broadcast_all (codes "[" ++ (username ++ (codes "]: " ++ message))) w

abbrev pub starts_with_slash : Bytes → Bool
starts_with_slash [] = false
starts_with_slash (c ∷ s) = eqb c b'/'

-- LWS_CALLBACK_RECEIVE; `none` is an exception that leaves the callback.
unfoldable pub web_receive : ℕ → Bytes → Web → Option Web
unfolding web_command web_text
web_receive wsi message w =
    if starts_with_slash message
    then web_command wsi (up_to_space message) message w
    else some (web_text wsi message w)

-- LWS_CALLBACK_CLOSED
unfoldable pub web_closed : ℕ → Web → Web
unfolding leave
web_closed wsi w = leave wsi w
