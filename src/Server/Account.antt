-- ===== src/Server/Account.antt =====
-- src/server.cpp, handleCommand: /login, /register and /nick. A handler gets the socket, the
-- client as it is in `clients_`, and the text behind the command's name.
pub mod Passwords
use smallchat.Base.{
  ℕ, ◌≡◌, refl, Bool, true, false, not, ◌&&◌, ◌||◌, Option, none, some, List, [], ◌∷◌, ◌++◌, Bytes,
  codes, length, eqb, is_empty, if◌then◌else◌, lookup, insert, bytes_eq,
}
use smallchat.Codec.Frames.{encode_error, encode_success, encode_system_message}
use smallchat.Server.Password.{hash_password, verify_password}
use smallchat.Server.Send.{send, emit, broadcast, get_client_by_name, rename}
use smallchat.Server.State.{
  ClientInfo, Event, saves_users, Server, Env, Fault, Outcome, returns, ◌>>=◌, attempt,
}
use smallchat.Server.Users.{save_users}
use smallchat.Std.Stream.{next_word, rest_of_line}

abbrev is_taken : Bytes → Server → Bool
is_taken name s = elim (get_client_by_name name s) [ none ↦ false | some _ ↦ true ]

-- "the first user becomes administrator": `if (users_.size() == 1) client.is_admin = true`
abbrev pub promoted : Server → ClientInfo → ClientInfo
promoted s c = if eqb (length s.users) 1 then record c { is_admin = true } else c

-- The block that /login and /register share: rename, mark as logged in, perhaps promote.
unfoldable pub enter : ℕ → ClientInfo → Bytes → Server → Server
enter fd c name s = rename fd (promoted s (record c { is_logged_in = true })) name s

abbrev joined_message : Bytes → Bytes
joined_message name = encode_system_message (name ++ codes " joined the chat")

unfoldable pub logged_in : ℕ → ClientInfo → Bytes → Server → Server
logged_in fd c name s =
    broadcast (joined_message name)
      (send fd (encode_success (codes "Logged in as " ++ name)) (enter fd c name s))

-- A known user gives the password.
unfoldable pub login_known : Env → ℕ → ClientInfo → Bytes → Bytes → Bytes → Server → Outcome Server
unfolding logged_in
login_known env fd c name password stored_password s =
    let checked = (do
      ok ← attempt s (verify_password env.derive password stored_password)
      returns (
          if ok
          then logged_in fd c name s
          else send fd (encode_error (codes "Invalid password")) s)) in
    if is_empty password
    then returns (send fd (encode_error (codes "Password required for existing user")) s)
    else checked

-- A new name is registered if there is a password, and may be used without one.
unfoldable pub login_new : Env → ℕ → ClientInfo → Bytes → Bytes → Server → Outcome Server
unfolding logged_in
login_new env fd c name password s =
    let registered = (do
      hashed_password ← attempt s (hash_password env.derive password env.salt)
      returns (logged_in fd c name (record s { users = insert name hashed_password s.users }))) in
    if is_empty password then returns (logged_in fd c name s) else registered

unfoldable pub login : Env → ℕ → ClientInfo → Bytes → Server → Outcome Server
unfolding login_known login_new
login env fd c args s =
    let (name, rest) = next_word args in
    let password = rest_of_line rest in
    if is_empty name
    then returns
        (send fd (encode_error (codes "Usage: /login <name> [password] or /l <name> [password]")) s)
    else if is_taken name s
    then returns (send fd (encode_error (codes "Name already taken")) s)
    else (elim (lookup name s.users) [
      | some stored_password ↦ login_known env fd c name password stored_password s
      | none ↦ login_new env fd c name password s
    ])

unfoldable pub registered_state : Env → ℕ → ClientInfo → Bytes → Bytes → Server → Server
registered_state env fd c name hashed_password s =
    let users = insert name hashed_password s.users in
    let saved = emit (saves_users (save_users users)) (record s { users = users }) in
    let told = send fd (encode_success (codes "User registered successfully: " ++ name)) saved in
    broadcast (joined_message name) (enter fd c name told)

unfoldable pub register : Env → ℕ → ClientInfo → Bytes → Server → Outcome Server
unfolding registered_state
register env fd c args s =
    let (name, rest) = next_word args in
    let password = rest_of_line rest in
    let registered = (do
      hashed_password ← attempt s (hash_password env.derive password env.salt)
      returns (registered_state env fd c name hashed_password s)) in
    if is_empty name || is_empty password
    then returns (
        send fd (encode_error (codes "Usage: /register <name> <password> or /r <name> <password>"))
          s)
    else if is_taken name s
    then returns (send fd (encode_error (codes "Name already in use")) s)
    else (elim (lookup name s.users) [
      | some _ ↦ returns (send fd (encode_error (codes "User already exists")) s)
      | none ↦ registered
    ])

-- The second branch for /register, with the text of the first.
abbrev pub register_again : Env → ℕ → ClientInfo → Bytes → Server → Outcome Server
register_again = register

unfoldable pub nick : ℕ → ClientInfo → Bytes → Server → Server
nick fd c args s =
    let (new_name, _) = next_word args in
    if is_empty new_name
    then send fd (encode_error (codes "Usage: /nick <name> or /n <name>")) s
    else if is_taken new_name s
    then send fd (encode_error (codes "Name already taken")) s
    else broadcast (encode_system_message (c.name ++ (codes " changed nickname to " ++ new_name))) (
        send fd (encode_success (codes "Nickname changed to " ++ new_name))
          (rename fd c new_name s))
