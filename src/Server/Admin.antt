-- ===== src/Server/Admin.antt =====
-- src/server.cpp, handleCommand: /mute, /unmute and /kick.
pub mod Guard
pub mod Silence
pub mod Rights
use smallchat.Base.{
  ℕ, zero, suc, ◌+◌, ◌*◌, ◌≡◌, refl, Bool, true, false, not, Option, none, some, List, [], ◌∷◌,
  ◌++◌, Bytes, codes, ltb, is_empty, if◌then◌else◌, lookup, nat_eq, bytes_eq,
}
use smallchat.Codec.Frames.{encode_error, encode_success, encode_system_message}
use smallchat.Server.Leave.{remove_client}
use smallchat.Server.Send.{send, broadcast, put_client}
use smallchat.Server.State.{ClientInfo, Server, Env, Outcome, returns}
use smallchat.Std.Decimal.{ℤ, pos, negsuc, print, stoi}
use smallchat.Std.Stream.{next_word, rest_of_line}

-- `minutes` of /mute.
unfoldable pub clamp_minutes : Option ℤ → ℕ
clamp_minutes none = 10
clamp_minutes (some (negsuc n)) = 1
clamp_minutes (some (pos n)) = if ltb n 1 then 1 else if ltb 60 n then 60 else n

unfoldable pub mute_minutes : Bytes → ℕ
unfolding clamp_minutes
mute_minutes time_str = if is_empty time_str then 10 else clamp_minutes (stoi time_str)

abbrev not_admin : ℕ → Server → Server
not_admin fd = send fd (encode_error (codes "Admin permission required"))

abbrev pub not_found : ℕ → Bytes → Server → Server
not_found fd name = send fd (encode_error (codes "User not found: " ++ name))

-- `key` is the place of the target in `clients_`.
unfoldable pub muted : Env → ℕ → ℕ → ClientInfo → Bytes → ℕ → Server → Server
muted env fd key target target_name minutes s =
    let for_minutes = codes " for " ++ (print minutes ++ codes " minutes") in
    let silenced =
      put_client key
        (record target { is_muted = true; mute_end_time = env.now + minutes * env.minute }) s in
    broadcast (encode_system_message (target_name ++ (codes " has been muted" ++ for_minutes))) (
      send target.socket_fd (encode_system_message (codes "You have been muted" ++ for_minutes))
        (send fd (encode_success (codes "Muted " ++ (target_name ++ for_minutes))) silenced))

-- The name is found in both tables: getClientByName, with the key of the client.
unfoldable pub find_target {ℓ} : {A : Type ℓ} → Bytes → Server → A → (ℕ → ClientInfo → A) → A
find_target name s missing found = elim (lookup name s.name_to_socket) [
  | none ↦ missing
  | some key ↦ (elim (lookup key s.clients) [ none ↦ missing | some target ↦ found key target ])
]

unfoldable pub mute : Env → ℕ → ClientInfo → Bytes → Server → Server
mute env fd c args s =
    let (target_name, rest) = next_word args in
    let time_str = rest_of_line rest in
    if not c.is_admin
    then not_admin fd s
    else if is_empty target_name
    then send fd (encode_error (codes "Usage: /mute <name> [time]")) s
    else find_target target_name s (not_found fd target_name s)
        λ key target. muted env fd key target target_name (mute_minutes time_str) s

unfoldable pub unmuted : Env → ℕ → ℕ → ClientInfo → Bytes → Server → Server
unmuted env fd key target target_name s =
    let freed = put_client key (record target { is_muted = false; mute_end_time = env.now }) s in
    broadcast (encode_system_message (target_name ++ codes " has been unmuted")) (
      send target.socket_fd (encode_system_message (codes "You have been unmuted"))
        (send fd (encode_success (codes "Unmuted " ++ target_name)) freed))

unfoldable pub unmute : Env → ℕ → ClientInfo → Bytes → Server → Server
unmute env fd c args s =
    let (target_name, _) = next_word args in
    if not c.is_admin
    then not_admin fd s
    else if is_empty target_name
    then send fd (encode_error (codes "Usage: /unmute <name>")) s
    else find_target target_name s (not_found fd target_name s)
        λ key target. unmuted env fd key target target_name s

abbrev because : Bytes → Bytes
because reason = if is_empty reason then [] else codes ": " ++ reason

unfoldable pub kicked : Env → ℕ → ClientInfo → Bytes → Bytes → Server → Outcome Server
kicked env fd target target_name reason s = remove_client env fd target.socket_fd (
    broadcast
      (encode_system_message
        (target_name ++ (codes " has been kicked from the server" ++ because reason)))
      (send target.socket_fd
        (encode_system_message (codes "You have been kicked from the server" ++ because reason)) s))

unfoldable pub kick : Env → ℕ → ClientInfo → Bytes → Server → Outcome Server
kick env fd c args s =
    let (target_name, rest) = next_word args in
    let reason = rest_of_line rest in
    if not c.is_admin
    then returns (not_admin fd s)
    else if is_empty target_name
    then returns (send fd (encode_error (codes "Usage: /kick <name> [reason]")) s)
    else find_target target_name s (returns (not_found fd target_name s))
        λ key target. kicked env fd target target_name reason s
