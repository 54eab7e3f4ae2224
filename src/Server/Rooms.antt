-- ===== src/Server/Rooms.antt =====
-- src/server.cpp, handleCommand: /createroom, /joinroom, /leaveroom, /rooms and /roommembers.
pub mod Kept
pub mod Members
pub mod Full
pub mod Changes
pub mod Reach
use smallchat.Base.{
  ℕ, Bool, false, not, ◌&&◌, ◌||◌, Option, none, some, List, [], ◌∷◌, ◌++◌, map, Bytes, codes,
  equal, is_empty, if◌then◌else◌, lookup, insert, erase, bytes_eq,
}
use smallchat.Codec.Frames.{
  encode_error, encode_success, encode_system_message, encode_room_list, encode_room_members,
}
use smallchat.Server.Password.{hash_password, verify_password}
use smallchat.Server.Send.{send, broadcast, put_client}
use smallchat.Server.State.{ClientInfo, ChatRoom, Server, Env, Outcome, returns, ◌>>=◌, attempt}
use smallchat.Std.Stream.{next_word, rest_of_line}

-- `client.current_room = room_name`
abbrev pub set_current_room : ℕ → ClientInfo → Bytes → Server → Server
set_current_room fd c room_name = put_client fd (record c { current_room = room_name })

unfoldable pub created : Env → ℕ → ClientInfo → Bytes → Bool → Bytes → Server → Server
created env fd c room_name is_private password s =
    let room : ChatRoom = record {
      name = room_name;
      creator = c.name;
      members = c.name ∷ [];
      create_time = env.now;
      is_private = is_private;
      password = password;
    } in
    let stored = record s { rooms = insert room_name room s.rooms } in
    broadcast
      (encode_system_message (codes "Room created: " ++ (room_name ++ (codes " by " ++ c.name))))
      (send fd (encode_success (codes "Room created successfully: " ++ room_name))
        (set_current_room fd c room_name stored))

unfoldable pub create_room : Env → ℕ → ClientInfo → Bytes → Server → Outcome Server
unfolding created
create_room env fd c args s =
    let (room_name, rest) = next_word args in
    let (private_flag, rest') = next_word rest in
    let (password, _) = next_word rest' in
    let is_private = equal private_flag (codes "private") || equal private_flag (codes "1") in
    let with_password = (do
      hashed ← attempt s (hash_password env.derive password env.salt)
      returns (created env fd c room_name is_private hashed s)) in
    if is_empty room_name
    then returns (
        send fd
          (encode_error (
            codes
              "Usage: /createroom <name> [private] [password] or /cr <name> [private] [password]"))
          s)
    else (elim (lookup room_name s.rooms) [
      | some _ ↦ returns (send fd (encode_error (codes "Room already exists: " ++ room_name)) s)
      | none ↦
          if is_private && not (is_empty password)
          then with_password
          else returns (created env fd c room_name is_private [] s)
    ])

unfoldable pub contains : List Bytes → Bytes → Bool
contains [] name = false
contains (m ∷ ms) name = equal m name || contains ms name

-- Behind the checks: the member is added to the room that is there.
unfoldable pub joined : ℕ → ClientInfo → Bytes → ChatRoom → Server → Server
joined fd c room_name room s =
    let grown = record room { members = room.members ++ (c.name ∷ []) } in
    let stored = record s { rooms = insert room_name grown s.rooms } in
    broadcast (encode_system_message (c.name ++ (codes " joined room: " ++ room_name))) (
      send fd (encode_success (codes "Joined room: " ++ room_name))
        (set_current_room fd c room_name stored))

unfoldable pub join_checked : ℕ → ClientInfo → Bytes → ChatRoom → Server → Server
unfolding joined contains
join_checked fd c room_name room s =
    if contains room.members c.name
    then send fd (encode_error (codes "Already in room: " ++ room_name)) s
    else joined fd c room_name room s

unfoldable pub join_private :
    Env → ℕ → ClientInfo → Bytes → Bytes → ChatRoom → Server → Outcome Server
unfolding join_checked
join_private env fd c room_name password room s =
    let checked = (do
      ok ← attempt s (verify_password env.derive password room.password)
      returns (
          if ok
          then join_checked fd c room_name room s
          else send fd (encode_error (codes "Invalid password for room")) s)) in
    if is_empty password
    then returns (send fd (encode_error (codes "Password required for private room")) s)
    else checked

unfoldable pub join_room : Env → ℕ → ClientInfo → Bytes → Server → Outcome Server
unfolding join_private
join_room env fd c args s =
    let (room_name, rest) = next_word args in
    let password = rest_of_line rest in
    if is_empty room_name
    then returns (
        send fd (encode_error (codes "Usage: /joinroom <name> [password] or /jr <name> [password]"))
          s)
    else (elim (lookup room_name s.rooms) [
      | none ↦ returns (send fd (encode_error (codes "Room not found: " ++ room_name)) s)
      | some room ↦
          if room.is_private
          then join_private env fd c room_name password room s
          else returns (join_checked fd c room_name room s)
    ])

-- `members.erase(std::remove(…, name), end())`
unfoldable pub remove : Bytes → List Bytes → List Bytes
remove name [] = []
remove name (m ∷ ms) = if equal m name then remove name ms else m ∷ remove name ms

-- The member is taken out of the room, and an empty room is deleted.
unfoldable pub remove_member : Bytes → Bytes → Server → Server
unfolding remove
remove_member room_name name s = elim (lookup room_name s.rooms) [
  | none ↦ s
  | some room ↦
      let members = remove name room.members in
      let rooms =
        if is_empty members
        then erase room_name s.rooms
        else insert room_name (record room { members = members }) s.rooms in
      record s { rooms = rooms }
]

unfoldable pub leave_room : ℕ → ClientInfo → Server → Server
leave_room fd c s =
    let current_room = c.current_room in
    if is_empty current_room
    then send fd (encode_error (codes "Not in any room")) s
    else broadcast (encode_system_message (c.name ++ (codes " left room: " ++ current_room))) (
        send fd (encode_success (codes "Left room: " ++ current_room))
          (set_current_room fd c [] (remove_member current_room c.name s)))

unfoldable pub list_rooms : ℕ → Server → Server
list_rooms fd s = send fd (encode_room_list (map (λ entry. entry.0) s.rooms)) s

unfoldable pub members_of : Option ChatRoom → List Bytes
members_of none = []
members_of (some room) = room.members

unfoldable pub list_members : ℕ → ClientInfo → Server → Server
unfolding members_of
list_members fd c s =
    if is_empty c.current_room
    then send fd (encode_error (codes "Not in any room")) s
    else send fd (encode_room_members c.current_room (members_of (lookup c.current_room s.rooms))) s
