-- ===== src/Server/Tests/Data.antt =====
-- A small server for the tests: ann, who is logged in and muted in the room "hall", is on socket 4.
use smallchat.Base.{true, false, none, [], ◌∷◌, codes}
use smallchat.Server.Password.{xor_derive}
use smallchat.Server.State.{ClientInfo, ChatRoom, Server, Env}

abbrev pub env : Env
env = record {
  now = 1000;
  minute = 60;
  random_id = codes "1_2";
  salt = 1 ∷ 255 ∷ [];
  derive = xor_derive;
  emojis = [];
  format_timestamp = λ t. [];
  read_file = λ path. none;
  has_returned = λ fd. false;
}

abbrev pub ann : ClientInfo
ann = record {
  socket_fd = 4;
  name = codes "ann";
  password = [];
  ip_address = codes "127.0.0.1";
  port = 5000;
  connect_time = 0;
  is_logged_in = true;
  is_admin = false;
  is_muted = true;
  mute_end_time = 2000;
  current_room = codes "hall";
}

abbrev pub hall : ChatRoom
hall = record {
  name = codes "hall";
  creator = codes "ann";
  members = codes "ann" ∷ [];
  create_time = 0;
  is_private = true;
  password = codes "01ff:609c";
}

abbrev pub one_client : Server
one_client = record {
  clients = (4, ann) ∷ [];
  name_to_socket = (codes "ann", 4) ∷ [];
  client_threads = (4, true) ∷ [];
  users = (codes "bob", codes "01ff:609c") ∷ [];
  rooms = (codes "hall", hall) ∷ [];
  message_history = [];
  room_message_history = [];
  websocket_clients = [];
  message_callback = false;
  connect_callback = false;
  disconnect_callback = false;
  web_broadcast_callback = false;
  web_send_to_callback = false;
  out = [];
}
