-- ===== src/Client/Connection.antt =====
-- src/client.cpp: connect, disconnect, start, stop, the destructor, and receiveThread. Without
-- OPENSSL_FOUND and _WIN32.
pub mod Chunks
pub mod Joined
use smallchat.Base.{
  ℕ, ◌≡◌, refl, Bool, true, false, not, ◌&&◌, Option, none, some, List, [], ◌∷◌, ◌++◌, Bytes, codes,
  is_empty, if◌then◌else◌, ◌>>=◌,
}
use smallchat.Client.{ChatClient, Shown, error_text, process_message}
use smallchat.Codec.Lines.{c_string, receive}

-- socket_fd_, host_, port_, whether receive_thread_ is joinable, and the sockets that were closed.
pub record Connection : Type 0 where
  pub client : ChatClient
  pub socket_fd : Option ℕ
  pub host : Bytes
  pub port : ℕ
  pub receiving : Bool
  pub closed : List ℕ

unfoldable pub new_connection : Connection
new_connection = record {
  client = record {
    connected = false;
    running = false;
    message_callback = false;
    system_callback = false;
    userlist_callback = false;
    error_callback = false;
    success_callback = false;
  };
  socket_fd = none;
  host = [];
  port = 0;
  receiving = false;
  closed = [];
}

-- What the operating system answers: the socket, inet_pton, and connect.
pub record Network : Type 0 where
  pub opened : Option ℕ
  pub parses : Bytes → Bool
  pub connects : Bool

-- close(socket_fd_); socket_fd_ = -1
unfoldable pub close_socket : Connection → Connection
close_socket c = elim c.socket_fd [
  | none ↦ c
  | some fd ↦ record c { socket_fd = none; closed = c.closed ++ (fd ∷ []) }
]

unfoldable pub connect_socket : Network → Bytes → ℕ → Connection → Connection × Bool
unfolding close_socket
connect_socket net host port c =
    let up = record c { host = host; port = port; client = record c.client { connected = true } } in
    if not (net.parses host)
    then (close_socket c, false)
    else if not net.connects
    then (close_socket c, false)
    else (up, true)

unfoldable pub connect : Network → Bytes → ℕ → Connection → Connection × Bool
unfolding connect_socket
connect net host port c = elim net.opened [
  | none ↦ (record c { socket_fd = none }, false)
  | some fd ↦ connect_socket net host port (record c { socket_fd = some fd })
]

-- A call returns, or std::terminate ends the program: a thread that is still joinable is assigned or
-- destroyed.
pub data Called : Type 0 where
  done terminates : Connection → Called

unfoldable pub start : Connection → Called
start c =
    let on = record c { client = record c.client { running = true } } in
    if c.client.running
    then done c
    else if c.receiving
    then terminates on
    else done (record on { receiving = true })

-- The receive thread ends within the second that its `select` waits, so the join returns.
unfoldable pub stop : Connection → Connection
stop c =
    let off = record c { client = record c.client { running = false } } in
    if not c.client.running then c else record off { receiving = false }

unfoldable pub disconnect : Connection → Connection
unfolding close_socket stop
disconnect c =
    let off = record c { client = record c.client { running = false; connected = false } } in
    if not c.client.connected then c else stop (close_socket off)

unfoldable pub is_connected : Connection → Bool
is_connected c = c.client.connected

-- The destructor, and then that of receive_thread_.
unfoldable pub destroy : Connection → Called
unfolding disconnect
destroy c = let off = disconnect c in if off.receiving then terminates off else done off

unfoldable pub get_user_count : Connection → ℕ
get_user_count c = 0

unfoldable pub set_message_callback : Bool → ChatClient → ChatClient
set_message_callback callback client = record client { message_callback = callback }

unfoldable pub set_system_message_callback : Bool → ChatClient → ChatClient
set_system_message_callback callback client = record client { system_callback = callback }

unfoldable pub set_user_list_callback : Bool → ChatClient → ChatClient
set_user_list_callback callback client = record client { userlist_callback = callback }

unfoldable pub set_error_callback : Bool → ChatClient → ChatClient
set_error_callback callback client = record client { error_callback = callback }

unfoldable pub set_success_callback : Bool → ChatClient → ChatClient
set_success_callback callback client = record client { success_callback = callback }

-- receive: what `recv` gave, [] for none.
unfoldable pub receive_data : Bytes → Option Bytes
receive_data [] = none
receive_data (b ∷ bs) = some (c_string (b ∷ bs))

-- What a round of receiveThread finds: nothing within the second or EAGAIN, bytes at a time, or the end.
pub data Round : Type 0 where
  nothing lost : Round
  bytes : ℕ → Bytes → Round

-- `processMessage` for each line that is not empty; `none` is an exception.
unfoldable pub process_lines : ChatClient → ℕ → List Bytes → Option (List Shown)
process_lines client now [] = some []
process_lines client now (line ∷ lines) =
    let rest = process_lines client now lines in
    let both = (do shown ← process_message client now line; more ← rest; some (shown ++ more)) in
    if is_empty line then rest else both

unfoldable pub show_lost : ChatClient → List Shown
show_lost client = if client.error_callback then error_text (codes "Connection lost") ∷ [] else []

-- The rounds, with received_data: what they show, and the connection when the thread ends or stands at
-- the next `select`.
unfoldable pub receive_rounds : List Round → Bytes → Connection → Option (List Shown × Connection)
unfolding process_lines show_lost disconnect
receive_rounds [] buffer c = some ([], c)
receive_rounds (nothing ∷ rounds) buffer c = receive_rounds rounds buffer c
receive_rounds (lost ∷ rounds) buffer c = some (show_lost c.client, disconnect c)
receive_rounds (bytes now chunk ∷ rounds) buffer c =
    let (lines, left) = receive buffer chunk in
    let later = receive_rounds rounds left c in
    do shown ← process_lines c.client now lines; (more, end) ← later; some (shown ++ more, end)

-- receiveThread, where no other thread changes running_ and connected_.
unfoldable pub receive_thread : List Round → Connection → Option (List Shown × Connection)
unfolding receive_rounds
receive_thread rounds c =
    if c.client.running && c.client.connected then receive_rounds rounds [] c else some ([], c)
