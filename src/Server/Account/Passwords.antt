-- ===== src/Server/Account/Passwords.antt =====
-- src/server.cpp: the password checks of /login and /joinroom.
use smallchat.Base.{ℕ, ◌≡◌, true, false, none, some, Bytes, arith, ◌⊎◌, is_empty, lookup, bytes_eq}
use smallchat.Server.Account.{login, login_known, logged_in}
use smallchat.Server.Password.{hash_password, verify_password}
use smallchat.Server.Password.Check.{verify-hash}
use smallchat.Codec.Base64.RoundTrip.{IsBytes}
use smallchat.Server.Send.{get_client_by_name}
use smallchat.Server.Registry.Same.{Same}
use smallchat.Server.Rooms.{join_room, join_private}
use smallchat.Server.State.{ClientInfo, ChatRoom, Server, Env, returns, left}
use smallchat.Std.Stream.{next_word, rest_of_line}

-- /login with the name of a registered user changes neither table of clients, unless the text
-- behind the name passes the check against the stored hash.
pub login_guarded :
    (env : Env) (fd : ℕ) (c : ClientInfo) (args : Bytes) (s : Server) (stored : Bytes)
    → lookup (next_word args).0 s.users ≡ some stored
    → Same s (left (login env fd c args s))
      ⊎ (verify_password env.derive (rest_of_line (next_word args).1) stored ≡ some true)
unfolding login login_known
login_guarded env fd c args s stored known = ground arith

-- /joinroom for a private room leaves the rooms and the clients as they are, unless the text behind
-- the name passes the check against the hash of the room.
pub join_room_guarded :
    (env : Env) (fd : ℕ) (c : ClientInfo) (args : Bytes) (s : Server) (room : ChatRoom)
    → lookup (next_word args).0 s.rooms ≡ some room
    → room.is_private ≡ true
    → (((left (join_room env fd c args s)).rooms ≡ s.rooms)
        × ((left (join_room env fd c args s)).clients ≡ s.clients))
      ⊎ (verify_password env.derive (rest_of_line (next_word args).1) room.password ≡ some true)
unfolding join_room join_private
join_room_guarded env fd c args s room there closed = ground arith

-- A registered user whose hash was made from a password that is not empty, with any salt of bytes,
-- gets in with it, where no client has the name: the answers and the new tables are those of
-- `logged_in`.
pub login-hash :
    (env : Env) (fd : ℕ) (c : ClientInfo) (args : Bytes) (s : Server) (salt stored : Bytes)
    → is_empty (next_word args).0 ≡ false
    → is_empty (rest_of_line (next_word args).1) ≡ false
    → get_client_by_name (next_word args).0 s ≡ none
    → lookup (next_word args).0 s.users ≡ some stored
    → IsBytes salt
    → hash_password env.derive (rest_of_line (next_word args).1) salt ≡ some stored
    → login env fd c args s ≡ returns (logged_in fd c (next_word args).0 s)
unfolding login login_known
login-hash env fd c args s salt stored named given free known h e =
    ground (arith, verify-hash env.derive (rest_of_line (next_word args).1) salt stored h e)
