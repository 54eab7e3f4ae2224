-- ===== src/Server/Life.antt =====
-- src/server.cpp: start, stop, isRunning and the setters of ChatServer, with the two files they read
-- and write. Without OPENSSL_FOUND and _WIN32.
pub mod Restart
pub mod Again
pub mod Waits
pub mod Mutex
use smallchat.Base.{
  ℕ, Bool, true, false, not, ◌||◌, Option, none, some, List, [], ◌∷◌, ◌++◌, map, Bytes, codes,
  equal, if◌then◌else◌,
}
use smallchat.Server.History.{load_message_history, save_message_history}
use smallchat.Server.Send.{emit, emit_all}
use smallchat.Server.State.{ClientInfo, Event, closes, Server, new_server}
use smallchat.Server.Users.{load_users, save_users}

-- users.txt and message_history.txt, where they are there.
pub record Disk : Type 0 where
  pub users_txt : Option Bytes
  pub history_txt : Option Bytes

-- The tables with server_fd_, port_, running_ and whether accept_thread_ is joinable.
pub record Host : Type 0 where
  pub server : Server
  pub server_fd : Option ℕ
  pub port : ℕ
  pub running : Bool
  pub accepting : Bool
  pub disk : Disk

-- What the operating system answers: the socket, whether each call succeeds, the time, and whether the
-- files can be written.
pub record System : Type 0 where
  pub opened : Option ℕ
  pub sets_option : Bool
  pub parses : Bytes → Bool
  pub binds : Bool
  pub listens : Bool
  pub sets_non_blocking : Bool
  pub now : ℕ
  pub writes_users : Bool
  pub writes_history : Bool

unfoldable pub new_host : Disk → Host
unfolding new_server
new_host disk = record {
  server = new_server;
  server_fd = none;
  port = 0;
  running = false;
  accepting = false;
  disk = disk;
}

-- false, true, or std::terminate, where accept_thread_ is still joinable when it is assigned.
pub data Started : Type 0 where
  rejected started terminates : Host → Started

-- The loads, whose results are not looked at, and the accept thread.
unfoldable pub serve : System → ℕ → Host → Started
serve sys port h =
    let users = record h.server { users = (load_users h.disk.users_txt h.server.users).0 } in
    let loaded = record h {
      port = port;
      running = true;
      server = (load_message_history sys.now h.disk.history_txt users).0;
    } in
    if h.accepting then terminates loaded else started (record loaded { accepting = true })

-- The socket is closed and server_fd_ keeps its number.
unfoldable pub give_up : ℕ → Host → Started
give_up fd h = rejected (record h { server = emit (closes fd) h.server })

unfoldable pub listen_on : System → ℕ → Bytes → ℕ → Host → Started
unfolding serve give_up
listen_on sys port host fd h =
    if not sys.sets_option
    then give_up fd h
    else if not (equal host (codes "0.0.0.0") || sys.parses host)
    then give_up fd h
    else if not sys.binds
    then give_up fd h
    else if not sys.listens
    then give_up fd h
    else if not sys.sets_non_blocking
    then give_up fd h
    else serve sys port h

unfoldable pub start : System → ℕ → Bytes → Host → Started
unfolding listen_on
start sys port host h = elim sys.opened [
  | none ↦ rejected (record h { server_fd = none })
  | some fd ↦ listen_on sys port host fd (record h { server_fd = some fd })
]

-- stop returns, or waits for the thread of a socket for ever.
pub data Stopped : Type 0 where
  stopped : Host → Stopped
  waits : ℕ → Host → Stopped

unfoldable pub save : System → Server → Disk → Disk
save sys s disk = record disk {
  users_txt = if sys.writes_users then some (save_users s.users) else disk.users_txt;
  history_txt = if sys.writes_history then some (save_message_history s) else disk.history_txt;
}

abbrev client_sockets : List (ℕ × ClientInfo) → List ℕ
client_sockets = map λ entry. entry.0

-- Every socket of `clients_` is closed and both tables are cleared.
unfoldable pub close_clients : Server → Server
close_clients s = record (emit_all (map (λ fd. closes fd) (client_sockets s.clients)) s) {
  clients = [];
  name_to_socket = [];
}

-- The first thread that stop waits for for ever. `ends fd` says that the thread returns though stop holds
-- threads_mutex_: it has no call of removeClient left. Mutex has the steps of the threads themselves.
unfoldable pub join_threads : (ℕ → Bool) → List (ℕ × Bool) → Option ℕ
join_threads ends [] = none
join_threads ends ((fd, joinable) ∷ threads) =
    let rest = join_threads ends threads in
    if not joinable then rest else if ends fd then rest else some fd

unfoldable pub close_listening : Option ℕ → Server → Server
close_listening none s = s
close_listening (some fd) s = emit (closes fd) s

-- Up to the join of the client threads. accept_thread_ ends, as its next `accept` fails or its loop sees
-- running_ false.
unfoldable pub shut : System → Host → Host
unfolding save close_listening close_clients
shut sys h = record h {
  running = false;
  disk = save sys h.server h.disk;
  server_fd = none;
  accepting = false;
  server = close_clients (close_listening h.server_fd h.server);
}

abbrev pub without_threads : Host → Host
without_threads h = record h { server = record h.server { client_threads = [] } }

unfoldable pub stop : System → (ℕ → Bool) → Host → Stopped
unfolding shut join_threads
stop sys ends h =
    if not h.running then stopped h else (elim (join_threads ends h.server.client_threads) [
      | none ↦ stopped (without_threads (shut sys h))
      | some fd ↦ waits fd (shut sys h)
    ])

unfoldable pub is_running : Host → Bool
is_running h = h.running

unfoldable pub set_message_callback : Bool → Server → Server
set_message_callback callback s = record s { message_callback = callback }

unfoldable pub set_connect_callback : Bool → Server → Server
set_connect_callback callback s = record s { connect_callback = callback }

unfoldable pub set_disconnect_callback : Bool → Server → Server
set_disconnect_callback callback s = record s { disconnect_callback = callback }

unfoldable pub set_websocket_broadcast_callback : Bool → Server → Server
set_websocket_broadcast_callback callback s = record s { web_broadcast_callback = callback }

unfoldable pub set_websocket_send_to_callback : Bool → Server → Server
set_websocket_send_to_callback callback s = record s { web_send_to_callback = callback }
