-- ===== src/Server/Registry/Commands.antt =====
-- src/server.cpp: what each command does to clients_ and name_to_socket_.
use smallchat.Base.{
  erase, ℕ, ◌+◌, ◌*◌, ◌≡◌, Bool, true, false, [], Bytes, arith, ◌⊎◌, nat_eq, bytes_eq,
}
use smallchat.Server.Account.{
  enter, logged_in, login_known, login_new, login, registered_state, register, nick,
}
use smallchat.Server.Admin.{
  mute, unmute, kick, muted, unmuted, kicked, find_target, not_found, mute_minutes,
}
use smallchat.Server.Leave.{forget, join_thread, remove_client}
use smallchat.Server.Registry.Same.{Same, broadcast-Same, remove_member-Same}
use smallchat.Server.Registry.Tables.{IsConsistent}
use smallchat.Server.Rooms.{
  set_current_room, created, create_room, joined, join_checked, join_private, join_room, leave_room,
}
use smallchat.Server.Send.{rename, put_client}
use smallchat.Server.State.{ClientInfo, Server, Env, Outcome, returns, left}
use smallchat.Std.Stream.{next_word, rest_of_line}

-- What a handler leaves is consistent, also where it stops.
abbrev pub Leaves : Outcome Server → Type 0
Leaves r = IsConsistent (left r)

-- The tables after a client got a name: the client is as it was but for the two flags.
abbrev pub named : ℕ → ClientInfo → Bytes → Bool → Bool → Server → Server
named fd c name logged_in admin =
    rename fd (record c { is_logged_in = logged_in; is_admin = admin }) name

-- A handler either leaves the tables, or gives the client a name.
abbrev pub Names : ℕ → ClientInfo → Bytes → Server → Server → Type 0
Names fd c name s t =
    Same s t
    ⊎ (Same (named fd c name c.is_logged_in c.is_admin s) t
        ⊎ (Same (named fd c name true c.is_admin s) t ⊎ Same (named fd c name true true s) t))

pub nick-Names :
    (fd : ℕ) (c : ClientInfo) (args : Bytes) (s : Server)
    → Names fd c (next_word args).0 s (nick fd c args s)
unfolding nick rename
nick-Names fd c args s = grind (arith, broadcast-Same)

logged_in-Names :
    (fd : ℕ) (c : ClientInfo) (name : Bytes) (s : Server)
    → Names fd c name s (logged_in fd c name s)
unfolding logged_in enter rename
logged_in-Names fd c name s = grind (arith, broadcast-Same)

pub login-Names :
    (env : Env) (fd : ℕ) (c : ClientInfo) (args : Bytes) (s : Server)
    → Names fd c (next_word args).0 s (left (login env fd c args s))
unfolding login login_known login_new logged_in enter rename
login-Names env fd c args s = grind (arith, broadcast-Same)

pub register-Names :
    (env : Env) (fd : ℕ) (c : ClientInfo) (args : Bytes) (s : Server)
    → Names fd c (next_word args).0 s (left (register env fd c args s))
unfolding register registered_state enter rename
register-Names env fd c args s = grind (arith, broadcast-Same)

module _ (fd : ℕ) (c : ClientInfo) (s : Server) where
  abbrev pub Moves : Bytes → Server → Type 0
  Moves room t = Same s t ⊎ Same (set_current_room fd c room s) t

  pub create_room-Moves :
      (env : Env) (args : Bytes) → Moves (next_word args).0 (left (create_room env fd c args s))
  unfolding create_room created
  create_room-Moves env args = grind (arith, broadcast-Same)

  pub join_room-Moves :
      (env : Env) (args : Bytes) → Moves (next_word args).0 (left (join_room env fd c args s))
  unfolding join_room join_private join_checked joined
  join_room-Moves env args = grind (arith, broadcast-Same)

  pub leave_room-Moves : Moves [] (leave_room fd c s)
  unfolding leave_room
  leave_room-Moves = grind (arith, broadcast-Same, remove_member-Same)

  pub muted-Same :
      (env : Env) (key : ℕ) (target : ClientInfo) (name : Bytes) (n : ℕ)
      → Same
          (put_client key
            (record target { is_muted = true; mute_end_time = env.now + n * env.minute })
            s)
          (muted env fd key target name n s)
  unfolding muted
  muted-Same env key target name n = grind (arith, broadcast-Same)

  pub unmuted-Same :
      (env : Env) (key : ℕ) (target : ClientInfo) (name : Bytes)
      → Same
          (put_client key (record target { is_muted = false; mute_end_time = env.now }) s)
          (unmuted env fd key target name s)
  unfolding unmuted
  unmuted-Same env key target name = grind (arith, broadcast-Same)

-- The tables of clients stay, and the thread of one socket may go.
pub record Sheds (fd : ℕ) (s t : Server) : Type 0 where
  pub clients : t.clients ≡ s.clients
  pub names : t.name_to_socket ≡ s.name_to_socket
  pub threads :
      (t.client_threads ≡ s.client_threads) ⊎ (t.client_threads ≡ erase fd s.client_threads)

pub remove_client-Sheds :
    (env : Env) (caller fd : ℕ) (s : Server)
    → Sheds fd (forget fd s) (left (remove_client env caller fd s))
unfolding remove_client join_thread
remove_client-Sheds env caller fd s = ground arith

-- The administrator's commands, up to the search for the target.
module _ (env : Env) (fd : ℕ) (c : ClientInfo) (args : Bytes) (s : Server) where
  pub mute_cases :
      Same s (mute env fd c args s)
      ⊎ (mute env fd c args s
          ≡ find_target (next_word args).0 s (not_found fd (next_word args).0 s) (λ key target.
            muted env fd key target
              (next_word args).0
              (mute_minutes (rest_of_line (next_word args).1))
              s))
  unfolding mute
  mute_cases = ground arith

  pub unmute_cases :
      Same s (unmute env fd c args s)
      ⊎ (unmute env fd c args s
          ≡ find_target
              (next_word args).0
              s
              (not_found fd (next_word args).0 s)
              (λ key target. unmuted env fd key target (next_word args).0 s))
  unfolding unmute
  unmute_cases = ground arith

  pub kick_cases :
      Same s (left (kick env fd c args s))
      ⊎ (kick env fd c args s
          ≡ find_target
              (next_word args).0
              s
              (returns (not_found fd (next_word args).0 s))
              (λ key target.
                kicked env fd target (next_word args).0 (rest_of_line (next_word args).1) s))
  unfolding kick
  kick_cases = ground arith
