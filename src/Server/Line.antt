-- ===== src/Server/Line.antt =====
-- src/server.cpp: the body of handleClient for one line, and acceptConnections for one client.
use smallchat.Base.{
  ℕ, true, false, none, some, List, [], ◌∷◌, ◌++◌, Bytes, codes, eqb, equal, take, is_empty,
  if◌then◌else◌, insert, nat_eq,
}
use smallchat.Codec.Frames.{encode_welcome}
use smallchat.Server.Command.{handle_command}
use smallchat.Server.Leave.{remove_client}
use smallchat.Server.Messages.{handle_message, handle_plain}
use smallchat.Server.Relay.{
  handle_file_transfer, handle_file_request, handle_file_response, handle_file_data,
  handle_read_receipt,
}
use smallchat.Server.Send.{send, emit, get_client_by_socket}
use smallchat.Server.State.{ClientInfo, connects, Server, Env, Outcome, returns, ◌>>=◌}
use smallchat.Std.Decimal.{print}

pub data Kind : Type 0 where
  command message file_transfer file_request file_response file_data read_receipt plain : Kind

-- The tests on the first bytes, in their order.
unfoldable pub kind_of : Bytes → Kind
kind_of [] = plain
kind_of (c ∷ s) =
    let line = c ∷ s in
    if eqb c b'/'
    then command
    else if equal (take 3 line) (codes "MSG")
    then message
    else if equal (take 13 line) (codes "FILE_TRANSFER")
    then file_transfer
    else if equal (take 12 line) (codes "FILE_REQUEST")
    then file_request
    else if equal (take 13 line) (codes "FILE_RESPONSE")
    then file_response
    else if equal (take 9 line) (codes "FILE_DATA")
    then file_data
    else if equal (take 12 line) (codes "READ_RECEIPT")
    then read_receipt
    else plain

-- A command of a socket that is no client any more does nothing.
unfoldable pub run_command : Env → ℕ → Bytes → Server → Outcome Server
run_command env fd line s = elim (get_client_by_socket fd s) [
  | none ↦ returns s
  | some c ↦ handle_command env fd c line s
]

unfoldable pub run_kind : Kind → Env → ℕ → Bytes → Server → Outcome Server
unfolding run_command
run_kind command env fd line s = run_command env fd line s
run_kind message env fd line s = returns (handle_message env fd line s)
run_kind file_transfer env fd line s = handle_file_transfer fd line s
run_kind file_request env fd line s = handle_file_request fd line s
run_kind file_response env fd line s = handle_file_response fd line s
run_kind file_data env fd line s = handle_file_data fd line s
run_kind read_receipt env fd line s = returns (handle_read_receipt line s)
run_kind plain env fd line s = returns (handle_plain env fd line s)

unfoldable pub handle_line : Env → ℕ → Bytes → Server → Outcome Server
handle_line env fd line s =
    if is_empty line then returns s else run_kind (kind_of line) env fd line s

-- One round of acceptConnections without SSL: the client, its thread, the welcome and the callback.
unfoldable pub accept : ℕ → Bytes → ℕ → ℕ → Server → Server
accept fd ip_address port now s =
    let name = codes "Guest_" ++ print fd in
    let client : ClientInfo = record {
      socket_fd = fd;
      name = name;
      password = [];
      ip_address = ip_address;
      port = port;
      connect_time = now;
      is_logged_in = false;
      is_admin = false;
      is_muted = false;
      mute_end_time = 0;
      current_room = [];
    } in
    let welcomed = send fd encode_welcome (record s {
      clients = insert fd client s.clients;
      client_threads = insert fd true s.client_threads;
    }) in
    if s.connect_callback then emit (connects fd name) welcomed else welcomed

-- What reaches the server: a connection (socket, address, port, time), a whole line, and the end of
-- a connection, where `recv` returns nothing.
pub data Input : Type 0 where
  connection : ℕ → Bytes → ℕ → ℕ → Input
  line : Env → ℕ → Bytes → Input
  end : Env → ℕ → Input

unfoldable pub step : Input → Server → Outcome Server
step (connection fd ip_address port now) s = returns (accept fd ip_address port now s)
step (line env fd text) s = handle_line env fd text s
step (end env fd) s = remove_client env fd fd s

-- A history of the server, up to the first call that does not return.
unfoldable pub run : List Input → Server → Outcome Server
run [] s = returns s
run (i ∷ is) s = do s' ← step i s; run is s'
