-- ===== src/Terminal.antt =====
-- src/main_client.cpp: the terminal of the client. What is typed are the lines, what is printed and what
-- is sent are lists, oldest first.
pub mod Gate
pub mod Login
pub mod Tests
use smallchat.Base.{
  ℕ, zero, suc, ◌-◌, ◌≡◌, refl, Bool, true, false, not, ◌&&◌, ◌||◌, Option, none, some, List, [],
  ◌∷◌, ◌++◌, Bytes, codes, cut, take, drop, length, eqb, equal, is_empty, if◌then◌else◌,
}
use smallchat.Client.{
  ChatClient, Shown, message, system, success_text, error_text, user_list, printed, printed_error,
  send_message, request_user_list,
}
use smallchat.Codec.Lines.{send_lines}
use smallchat.Codec.Message.{ChatMessage, MessageType, newline}
use smallchat.Server.History.{has_type}

-- g_client, g_logged_in, g_quit and g_current_user.
pub record Terminal : Type 0 where
  pub client : ChatClient
  pub logged_in : Bool
  pub quit : Bool
  pub current_user : Bytes
  pub sent : List Bytes
  pub shown : List Bytes

unfoldable pub get_prompt : Terminal → Bytes
get_prompt t = if t.logged_in then codes "[" ++ (t.current_user ++ codes "] > ") else codes "> "

abbrev pub print : Bytes → Terminal → Terminal
print text t = record t { shown = t.shown ++ (text ∷ []) }

-- `\r`, the text, the end of the line and the prompt.
unfoldable pub print_line : Bytes → Terminal → Terminal
unfolding get_prompt
print_line text t = print (13 ∷ (text ++ (newline ∷ get_prompt t))) t

-- The text behind the first occurrence of `pattern`.
unfoldable pub behind : Bytes → Bytes → Option Bytes
behind pattern [] = if is_empty pattern then some [] else none
behind pattern (c ∷ s) =
    let later = behind pattern s in
    if equal (take (length pattern) (c ∷ s)) pattern
    then some (drop (length pattern) (c ∷ s))
    else later

unfoldable pub registered : Bytes → Terminal → Terminal
unfolding behind
registered text t =
    let on = record t { logged_in = true } in
    elim (behind (codes ": ") text) [ none ↦ on | some name ↦ record on { current_user = name } ]

-- The success callback, which looks for a login.
unfoldable pub on_success : Bytes → Terminal → Terminal
unfolding print_line registered
on_success text t =
    let told = print_line (codes "[OK] " ++ text) t in
    let other : Terminal = elim (behind (codes "registered successfully") text) [
      | none ↦ told
      | some _ ↦ registered text told
    ] in
    elim (behind (codes "Logged in as ") text) [
      | some name ↦ record told { logged_in = true; current_user = name }
      | none ↦ other
    ]

unfoldable pub on_message : ChatMessage → Terminal → Terminal
unfolding print_line
on_message m t =
    if has_type m MessageType.private
    then print_line
        (codes "[Private] "
          ++ (m.sender ++ (codes " -> " ++ (m.receiver ++ (codes ": " ++ m.content)))))
        t
    else print_line (codes "[" ++ (m.sender ++ (codes "]: " ++ m.content))) t

unfoldable pub comma_list : List Bytes → Bytes
comma_list [] = []
comma_list (u ∷ []) = u
comma_list (u ∷ v ∷ us) = u ++ (codes ", " ++ comma_list (v ∷ us))

-- The callbacks; what the client prints itself has no prompt behind it.
unfoldable pub on_shown : Shown → Terminal → Terminal
unfolding on_success on_message comma_list
on_shown (message m) t = on_message m t
on_shown (system text) t = print_line (codes "[SYS] " ++ text) t
on_shown (success_text text) t = on_success text t
on_shown (error_text text) t = print_line (codes "[Error] " ++ text) t
on_shown (printed text) t = print text t
on_shown (printed_error text) t = print text t
on_shown (user_list users) t = print_line (codes "[Users] Online: " ++ comma_list users) t

unfoldable pub on_shown_all : List Shown → Terminal → Terminal
unfolding on_shown
on_shown_all [] t = t
on_shown_all (s ∷ ss) t = on_shown_all ss (on_shown s t)

unfoldable pub is_login_cmd : Bytes → Bool
is_login_cmd input =
    equal (take 7 input) (codes "/login ")
    || (equal (take 3 input) (codes "/l ")
        || (equal (take 10 input) (codes "/register ") || equal (take 3 input) (codes "/r ")))

abbrev pub is_any : Bytes → List Bytes → Bool
is_any input [] = false
is_any input (c ∷ cs) = equal input c || is_any input cs

unfoldable pub is_allowed_cmd : Bytes → Bool
unfolding is_login_cmd
is_allowed_cmd input =
    is_any input
      (codes "/quit" ∷ codes "/q" ∷ codes "/help" ∷ codes "/h" ∷ codes "/info" ∷ codes "/i" ∷ [])
    || is_login_cmd input

-- A line that the client sends, or none without a connection.
abbrev pub add_sent : Option Bytes → Terminal → Terminal
add_sent none t = t
add_sent (some text) t = record t { sent = t.sent ++ (text ∷ []) }

-- The first word behind the command.
unfoldable pub login_name : Bytes → Option Bytes
login_name input = elim (cut b' ' input) [
  | none ↦ none
  | some (_, name) ↦ elim (cut b' ' name) [ none ↦ some name | some (first, _) ↦ some first ]
]

unfoldable pub send_input : Bytes → Terminal → Terminal
unfolding login_name is_login_cmd
send_input input t =
    let told = add_sent (send_message t.client input) t in
    let named : Terminal = elim (login_name input) [
      | none ↦ told
      | some name ↦ record told { current_user = name }
    ] in
    if is_login_cmd input && not t.logged_in then named else told

-- The loop goes on, or main returns.
pub data Round : Type 0 where
  goes ends : Terminal → Round

unfoldable pub help_lines : List Bytes
help_lines =
    []
    ∷ codes "Commands:"
    ∷ codes "  /login <name> [password] (/l)    - Login with a name and optional password"
    ∷ codes "  /register <name> <password> (/r) - Register a new user"
    ∷ codes "  /users (/u)           - List online users"
    ∷ codes "  /whisper <name> <msg> (/w) - Send private message"
    ∷ codes "  /help (/h)            - Show this help"
    ∷ codes "  /quit (/q)            - Disconnect and exit"
    ∷ codes "  /nick <name> (/n)     - Change nickname"
    ∷ codes "  /info                 - Show server info"
    ∷ codes "  /createroom <name> [private] [password] (/cr) - Create a chat room"
    ∷ codes "  /joinroom <name> [password] (/jr) - Join a chat room"
    ∷ codes "  /leaveroom (/lr)      - Leave current chat room"
    ∷ codes "  /rooms (/ro)          - List all chat rooms"
    ∷ codes "  /roommembers (/rm)    - List members in current chat room"
    ∷ codes "  /transfer <file> <name> (/t) - Transfer file to user"
    ∷ codes "  /file <file>          - Send file to current chat room"
    ∷ codes "  /history [count]      - Get message history"
    ∷ codes "  /roomhistory [count]  - Get current room message history"
    ∷ codes "  /mute <name> [time]   - Mute user (admin only)"
    ∷ codes "  /unmute <name>        - Unmute user (admin only)"
    ∷ codes "  /kick <name> [reason] - Kick user (admin only)"
    ∷ codes "  <message>         - Send broadcast message"
    ∷ []

-- Each line with its end.
unfoldable pub print_help : Terminal → Terminal
unfolding help_lines
print_help t = print (send_lines help_lines) t

unfoldable pub run_input : Bytes → Terminal → Terminal
unfolding send_input print_help
run_input input t =
    if is_any input (codes "/help" ∷ codes "/h" ∷ [])
    then print_help t
    else if is_any input (codes "/users" ∷ codes "/u" ∷ [])
    then add_sent (request_user_list t.client) t
    else if is_any input (codes "/info" ∷ codes "/i" ∷ [])
    then add_sent (send_message t.client (codes "/info")) t
    else send_input input t

abbrev pub please_login : Bytes
please_login =
    codes "[Error] Please login first. Use /login <name> or /register <name> <password>"
    ++ (newline ∷ [])

abbrev pub with_prompt : Terminal → Terminal
with_prompt t = print (get_prompt t) t

-- /quit: disconnect, and then stop.
unfoldable pub leave : Terminal → Terminal
leave t = print (codes "Disconnected." ++ (newline ∷ [])) (
    print (newline ∷ (codes "Disconnecting..." ++ (newline ∷ [])))
      (record t { client = record t.client { connected = false; running = false } }))

-- The body of the loop of main for one line.
unfoldable pub on_input : Bytes → Terminal → Round
unfolding is_allowed_cmd run_input leave get_prompt
on_input input t =
    if not t.client.connected || t.quit
    then ends t
    else if is_empty input
    then goes (with_prompt t)
    else if not t.logged_in && not (is_allowed_cmd input)
    then goes (with_prompt (print please_login t))
    else if is_any input (codes "/quit" ∷ codes "/q" ∷ codes "/Q" ∷ [])
    then ends (leave t)
    else goes (with_prompt (run_input input t))

-- What is typed, up to the end of main.
unfoldable pub on_inputs : List Bytes → Terminal → Terminal
unfolding on_input
on_inputs [] t = t
on_inputs (input ∷ inputs) t = elim (on_input input t) [
  | ends t' ↦ t'
  | goes t' ↦ on_inputs inputs t'
]

-- signalHandler, for SIGINT and SIGTERM.
unfoldable pub on_signal : Terminal → Terminal
on_signal t =
    print (newline ∷ (codes "Disconnecting..." ++ (newline ∷ [])))
      (record t { quit = true; client = record t.client { connected = false; running = false } })
