-- ===== src/Server/Talk.antt =====
-- src/server.cpp, handleCommand: /users, /whisper, /help, /info, /history, /roomhistory, and a
-- command that is not known, which in a room is a message.
use smallchat.Base.{
  ℕ, ◌||◌, none, some, List, [], ◌∷◌, ◌++◌, Bytes, codes, is_empty, if◌then◌else◌, nat_eq, bytes_eq,
}
use smallchat.Codec.Frames.{encode_error, encode_system_message, encode_user_list}
use smallchat.Codec.Message.{ChatMessage, MessageType, type_code, blank, encode}
use smallchat.Server.History.{add_message_to_history, room_history, history_count, window}
use smallchat.Server.Send.{
  send, send_each, notify, get_client_by_name, get_client_count, room_sockets,
}
use smallchat.Server.State.{ClientInfo, Server, Env}
use smallchat.Std.Decimal.{print}
use smallchat.Std.Stream.{next_word, rest_of_line}
use smallchat.Utils.{replace_emojis}

-- The message that the server makes of a client's text.
abbrev pub message_of : Env → ClientInfo → Bytes → MessageType → Bytes → ChatMessage
message_of env c receiver type content = record blank {
  sender = c.name;
  receiver = receiver;
  content = replace_emojis env.emojis content;
  type = type_code type;
  timestamp = env.now;
  message_id = env.random_id;
}

unfoldable pub logged_in_names : List (ℕ × ClientInfo) → List Bytes
logged_in_names [] = []
logged_in_names ((_, c) ∷ cs) =
    if c.is_logged_in then c.name ∷ logged_in_names cs else logged_in_names cs

unfoldable pub list_users : ℕ → Server → Server
unfolding logged_in_names
list_users fd s = send fd (encode_user_list (logged_in_names s.clients)) s

unfoldable pub whispered : Env → ℕ → ClientInfo → ClientInfo → Bytes → Bytes → Server → Server
whispered env fd c target target_name msg s =
    let m = message_of env c target_name MessageType.private msg in
    send fd (encode m) (send target.socket_fd (encode m) (add_message_to_history m s))

unfoldable pub whisper : Env → ℕ → ClientInfo → Bytes → Server → Server
unfolding whispered
whisper env fd c args s =
    let (target_name, rest) = next_word args in
    let msg = rest_of_line rest in
    if is_empty target_name || is_empty msg
    then send fd (encode_error (codes "Usage: /whisper <name> <message> or /w <name> <message>")) s
    else (elim (get_client_by_name target_name s) [
      | none ↦ send fd (encode_error (codes "User not found: " ++ target_name)) s
      | some target ↦ whispered env fd c target target_name msg s
    ])

unfoldable pub joined_lines : List Bytes → Bytes
joined_lines [] = []
joined_lines (l ∷ ls) = l ++ (b'\n' ∷ joined_lines ls)

unfoldable pub help_text : Bytes
unfolding joined_lines
help_text = joined_lines (
    codes "Commands:"
    ∷ codes "  /login <name> [password] (/l)    - Login with a name and optional password"
    ∷ codes "  /register <name> <password> (/r) - Register a new user"
    ∷ codes "  /users (/u)           - List online users"
    ∷ codes "  /whisper <name> <msg> (/w) - Send private message"
    ∷ codes "  /help (/h)            - Show this help"
    ∷ codes "  /quit (/q)            - Disconnect"
    ∷ codes "  /nick <name> (/n)     - Change nickname"
    ∷ codes "  /info                 - Show server info"
    ∷ codes "  /createroom <name> [private] [password] (/cr) - Create a chat room"
    ∷ codes "  /joinroom <name> [password] (/jr) - Join a chat room"
    ∷ codes "  /leaveroom (/lr)      - Leave current chat room"
    ∷ codes "  /rooms (/ro)          - List all chat rooms"
    ∷ codes "  /roommembers (/rm)    - List members in current chat room"
    ∷ codes "  /transfer <file> <name> (/t) - Transfer file to user"
    ∷ codes "  /file <file>          - Send file to current chat room"
    ∷ codes "  /history [count]      - Get message history"
    ∷ codes "  /roomhistory [count]  - Get current room message history"
    ∷ codes "  /mute <name> [time]   - Mute user (admin only)"
    ∷ codes "  /unmute <name>        - Unmute user (admin only)"
    ∷ codes "  /kick <name> [reason] - Kick user (admin only)"
    ∷ [])

unfoldable pub help : ℕ → Server → Server
unfolding help_text
help fd s = send fd (encode_system_message help_text) s

unfoldable pub info : ℕ → Server → Server
unfolding joined_lines
info fd s =
    send fd
      (encode_system_message (
        joined_lines (
          codes "Server Info:"
          ∷ (codes "  Online users: " ++ print (get_client_count s))
          ∷ codes "  Server version: 1.0.0"
          ∷ codes "  SmallChat - A simple chat server"
          ∷ [])))
      s

-- One line of a history.
abbrev pub formatted : Env → ChatMessage → Bytes
formatted env m =
    codes "["
    ++ (env.format_timestamp m.timestamp ++ (codes "] " ++ (m.sender ++ (codes ": " ++ m.content))))

unfoldable pub send_history : Env → ℕ → List ChatMessage → Server → Server
send_history env fd [] s = s
send_history env fd (m ∷ ms) s =
    send_history env fd ms (send fd (encode_system_message (formatted env m)) s)

unfoldable pub show_history : Env → ℕ → Bytes → Server → Server
unfolding send_history
show_history env fd args s =
    let (count_str, _) = next_word args in
    send_history env fd (window (history_count count_str) s.message_history)
      (send fd (encode_system_message (codes "Message History:")) s)

unfoldable pub show_room_history : Env → ℕ → ClientInfo → Bytes → Server → Server
unfolding send_history
show_room_history env fd c args s =
    let (count_str, _) = next_word args in
    if is_empty c.current_room
    then send fd (encode_error (codes "Not in any room")) s
    else send_history env fd (window (history_count count_str) (room_history c.current_room s))
        (send fd (encode_system_message (codes "Room History:")) s)

-- The last branch of handleCommand; `command` is the whole line.
unfoldable pub unknown_command : Env → ℕ → ClientInfo → Bytes → Bytes → Server → Server
unknown_command env fd c cmd command s =
    let m = message_of env c c.current_room MessageType.room_message command in
    let recorded = notify m (add_message_to_history m s) in
    if is_empty c.current_room
    then send fd (encode_error (codes "Unknown command: " ++ cmd)) s
    else send_each (room_sockets c.current_room recorded) (encode m) recorded
