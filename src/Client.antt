-- ===== src/Client.antt =====
-- src/client.cpp: the requests of ChatClient, and processMessage for one received line.
pub mod Connection
pub mod Lost
pub mod Tests
use smallchat.Base.{
  ℕ, zero, suc, ◌+◌, ◌≡◌, refl, Bool, true, false, not, ◌&&◌, ◌||◌, Option, none, some, List, [],
  ◌∷◌, ◌++◌, Bytes, codes, cut, take, drop, eqb, equal, is_empty, if◌then◌else◌, ◌>>=◌,
}
use smallchat.Codec.Message.{ChatMessage, blank, decode, bar, newline}
use smallchat.Std.Decimal.{stoull}

-- connected_, running_ and which callbacks are set.
pub record ChatClient : Type 0 where
  pub connected : Bool
  pub running : Bool
  pub message_callback : Bool
  pub system_callback : Bool
  pub userlist_callback : Bool
  pub error_callback : Bool
  pub success_callback : Bool

-- What is sent: the bytes, or `none` (false) without a connection.
unfoldable pub send : ChatClient → Bytes → Option Bytes
send client text = if client.connected then some (text ++ (newline ∷ [])) else none

unfoldable pub login : ChatClient → Bytes → Bytes → Option Bytes
unfolding send
login client name password =
    let cmd = codes "/login " ++ name in
    send client (if is_empty password then cmd else cmd ++ (codes " " ++ password))

unfoldable pub send_message : ChatClient → Bytes → Option Bytes
unfolding send
send_message client message = send client message

unfoldable pub send_private_message : ChatClient → Bytes → Bytes → Option Bytes
unfolding send
send_private_message client receiver message =
    send client (codes "/whisper " ++ (receiver ++ (codes " " ++ message)))

unfoldable pub request_user_list : ChatClient → Option Bytes
unfolding send
request_user_list client = send client (codes "/users")

-- What a line leads to: a callback, or a print where none is set.
pub data Shown : Type 0 where
  message : ChatMessage → Shown
  system success_text error_text printed printed_error : Bytes → Shown
  user_list : List Bytes → Shown

abbrev show_system : ChatClient → Bytes → Shown
show_system client t =
    if client.system_callback then system (codes "[SYS] " ++ t) else printed (codes "[SYS] " ++ t)

unfoldable pub show_welcome : ChatClient → Bytes → List Shown
show_welcome client s = elim (cut bar s) [
  | none ↦ []
  | some (welcome_msg, rest) ↦
      show_system client welcome_msg
      ∷ elim (cut bar rest) [ none ↦ [] | some (commands, _) ↦ show_system client commands ∷ [] ]
]

unfoldable pub show_ok : ChatClient → Bytes → List Shown
show_ok client msg =
    if client.success_callback
    then success_text msg ∷ []
    else if client.system_callback
    then system (codes "[OK] " ++ msg) ∷ []
    else printed (codes "[OK] " ++ msg) ∷ []

unfoldable pub show_error : ChatClient → Bytes → List Shown
show_error client error =
    if client.error_callback
    then error_text error ∷ []
    else printed_error (codes "[ERROR] " ++ error) ∷ []

unfoldable pub show_sys : ChatClient → Bytes → List Shown
show_sys client s = elim (cut bar s) [ none ↦ [] | some (msg, _) ↦ show_system client msg ∷ [] ]

-- `for (i = 0; i < count; i++)` with a break where no separator is left.
unfoldable pub read_users : ℕ → Bytes → List Bytes
read_users zero s = []
read_users (suc count) s = elim (cut bar s) [
  | none ↦ []
  | some (user, rest) ↦ user ∷ read_users count rest
]

unfoldable pub show_users : ChatClient → Bytes → Option (List Shown)
unfolding read_users
show_users client s = elim (cut bar s) [
  | none ↦ some []
  | some (count_str, rest) ↦ do
    count ← stoull count_str
    some (if client.userlist_callback then user_list (read_users count rest) ∷ [] else [])
]

-- The lines with a type in front of the first separator.
unfoldable pub show_typed : ChatClient → Bytes → Bytes → Option (List Shown)
unfolding show_welcome show_ok show_error show_sys show_users
show_typed client type s =
    if equal type (codes "WELCOME")
    then some (show_welcome client s)
    else if equal type (codes "OK")
    then some (show_ok client s)
    else if equal type (codes "ERROR")
    then some (show_error client s)
    else if equal type (codes "SYS")
    then some (show_sys client s)
    else if equal type (codes "USERS")
    then show_users client s
    else some []

unfoldable pub show_message : ChatClient → ℕ → Bytes → List Shown
show_message client now line = elim (decode now line blank) [
  | none ↦ []
  | some m ↦ if client.message_callback then message m ∷ [] else []
]

unfoldable pub show_other : ChatClient → Bytes → Option (List Shown)
unfolding show_typed
show_other client line = elim (cut bar line) [
  | none ↦ some []
  | some (type, rest) ↦ show_typed client type rest
]

-- The prefixes of the file messages, which are only announced.
unfoldable pub file_notice : Bytes → Option Bytes
file_notice line =
    if equal (take 13 line) (codes "FILE_TRANSFER")
    then some (codes "[FILE] Incoming file transfer request")
    else if equal (take 12 line) (codes "FILE_REQUEST")
    then some (codes "[FILE] Incoming file request")
    else if equal (take 13 line) (codes "FILE_RESPONSE")
    then some (codes "[FILE] File transfer response received")
    else if equal (take 9 line) (codes "FILE_DATA")
    then some (codes "[FILE] Receiving file data")
    else none

-- processMessage; `none` is an exception of std::stoul, and debug prints are left out.
unfoldable pub process_message : ChatClient → ℕ → Bytes → Option (List Shown)
unfolding show_message show_other file_notice
process_message client now line =
    if equal (take 3 line) (codes "MSG")
    then some (show_message client now line)
    else (elim (file_notice line) [
      | some notice ↦ some (printed notice ∷ [])
      | none ↦
          if equal (take 12 line) (codes "READ_RECEIPT") then some [] else show_other client line
    ])
