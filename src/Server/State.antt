-- ===== src/Server/State.antt =====
-- include/common.h: ClientInfo and ChatRoom; include/server.h: the members of ChatServer. What the
-- server does to the world is a list of events, oldest first.
use smallchat.Base.{ℕ, Bool, false, Option, none, some, List, [], Bytes}
use smallchat.Codec.Message.{ChatMessage}
use smallchat.Server.Password.{Derive}

-- `ip_address`, `port` and `connect_time` are set once and only reported; `password` is never set.
pub record ClientInfo : Type 0 where
  pub socket_fd : ℕ
  pub name : Bytes
  pub password : Bytes
  pub ip_address : Bytes
  pub port : ℕ
  pub connect_time : ℕ
  pub is_logged_in : Bool
  pub is_admin : Bool
  pub is_muted : Bool
  pub mute_end_time : ℕ
  pub current_room : Bytes

pub record ChatRoom : Type 0 where
  pub name : Bytes
  pub creator : Bytes
  pub members : List Bytes
  pub create_time : ℕ
  pub is_private : Bool
  pub password : Bytes

pub data Event : Type 0 where
  -- sendToSocket(fd, message), whose result no caller acts on
  sends : ℕ → Bytes → Event
  -- the callbacks of the web server
  broadcasts_web : Bytes → Event
  sends_web : Bytes → Bytes → Event
  -- message_callback_, connect_callback_ and disconnect_callback_
  notifies : ChatMessage → Event
  connects : ℕ → Bytes → Event
  disconnects : ℕ → Bytes → Event
  -- close(fd)
  closes : ℕ → Event
  -- saveUsers("users.txt"), with the text that is written
  saves_users : Bytes → Event

pub record Server : Type 0 where
  pub clients : List (ℕ × ClientInfo)
  pub name_to_socket : List (Bytes × ℕ)
  -- the keys of client_threads_
  pub client_threads : List (ℕ × Bool)
  pub users : List (Bytes × Bytes)
  pub rooms : List (Bytes × ChatRoom)
  pub message_history : List ChatMessage
  pub room_message_history : List (Bytes × List ChatMessage)
  -- the web users with their connections, which are pointers of the web server
  pub websocket_clients : List (Bytes × ℕ)
  -- whether the callbacks are set
  pub message_callback : Bool
  pub connect_callback : Bool
  pub disconnect_callback : Bool
  pub web_broadcast_callback : Bool
  pub web_send_to_callback : Bool
  pub out : List Event

-- What a call takes from outside: the clock and its ticks in a minute, the random message id and
-- salt, the key derivation, the emoji table in the order of its iteration, the print of a time,
-- the files, and which client threads have returned.
pub record Env : Type 0 where
  pub now : ℕ
  pub minute : ℕ
  pub random_id : Bytes
  pub salt : Bytes
  pub derive : Derive
  pub emojis : List (Bytes × Bytes)
  pub format_timestamp : ℕ → Bytes
  pub read_file : Bytes → Option Bytes
  pub has_returned : ℕ → Bool

-- How a call can fail to return: std::thread::join on the calling thread throws, join on a
-- thread that has not returned waits, and other C++ exceptions that nothing catches.
pub data Fault : Type 0 where
  joins_itself : Fault
  waits_for : ℕ → Fault
  throws : Fault

-- The state at the fault is what was done before it.
pub data Outcome {ℓ} (A : Type ℓ) : Type ℓ where
  returns : A → Outcome A
  stops : Fault → Server → Outcome A

infixl 5 ◌>>=◌
abbrev pub ◌>>=◌ {ℓ κ} : {A : Type ℓ} {B : Type κ} → Outcome A → (A → Outcome B) → Outcome B
returns a >>= f = f a
stops why s >>= f = stops why s

-- A library call that may throw, in state `s`.
abbrev pub attempt {ℓ} : {A : Type ℓ} → Server → Option A → Outcome A
attempt s none = stops throws s
attempt s (some a) = returns a

-- The state that a call leaves, also where it stops.
abbrev pub left : Outcome Server → Server
left (returns s) = s
left (stops why s) = s

-- A server that has just been made.
unfoldable pub new_server : Server
new_server = record {
  clients = [];
  name_to_socket = [];
  client_threads = [];
  users = [];
  rooms = [];
  message_history = [];
  room_message_history = [];
  websocket_clients = [];
  message_callback = false;
  connect_callback = false;
  disconnect_callback = false;
  web_broadcast_callback = false;
  web_send_to_callback = false;
  out = [];
}
