-- ===== src/Server/History/Quiet/Commands.antt =====
-- src/server.cpp: the commands that change accounts, rooms and clients do not touch the histories.
use smallchat.Base.{ℕ, Bytes, arith, nat_eq, bytes_eq}
use smallchat.Server.Account.{
  enter, logged_in, login_known, login_new, login, registered_state, register, nick,
}
use smallchat.Server.Admin.{mute, unmute, kick, muted, unmuted, kicked, find_target}
use smallchat.Server.History.Quiet.{Quiet, broadcast-Quiet, remove_member-Quiet}
use smallchat.Server.Leave.{forget, join_thread, remove_client, quit}
use smallchat.Server.Line.{accept}
use smallchat.Server.Rooms.{
  created, create_room, joined, join_checked, join_private, join_room, leave_room,
}
use smallchat.Server.Send.{rename}
use smallchat.Server.State.{ClientInfo, Server, Env, left}

module _ (fd : ℕ) (c : ClientInfo) (args : Bytes) (s : Server) where
  pub nick-Quiet : Quiet s (nick fd c args s)
  unfolding nick rename
  nick-Quiet = grind (arith, broadcast-Quiet)

  pub leave_room-Quiet : Quiet s (leave_room fd c s)
  unfolding leave_room
  leave_room-Quiet = grind (arith, broadcast-Quiet, remove_member-Quiet)

module _ (env : Env) (fd : ℕ) (c : ClientInfo) (args : Bytes) (s : Server) where
  pub login-Quiet : Quiet s (left (login env fd c args s))
  unfolding login login_known login_new logged_in enter rename
  login-Quiet = grind (arith, broadcast-Quiet)

  pub register-Quiet : Quiet s (left (register env fd c args s))
  unfolding register registered_state enter rename
  register-Quiet = grind (arith, broadcast-Quiet)

  pub create_room-Quiet : Quiet s (left (create_room env fd c args s))
  unfolding create_room created
  create_room-Quiet = grind (arith, broadcast-Quiet)

  pub join_room-Quiet : Quiet s (left (join_room env fd c args s))
  unfolding join_room join_private join_checked joined
  join_room-Quiet = grind (arith, broadcast-Quiet)

  pub mute-Quiet : Quiet s (mute env fd c args s)
  unfolding mute muted find_target
  mute-Quiet = grind (arith, broadcast-Quiet)

  pub unmute-Quiet : Quiet s (unmute env fd c args s)
  unfolding unmute unmuted find_target
  unmute-Quiet = grind (arith, broadcast-Quiet)

pub accept-Quiet :
    (fd : ℕ) (s : Server) (ip_address : Bytes) (port now : ℕ)
    → Quiet s (accept fd ip_address port now s)
unfolding accept
accept-Quiet fd s ip_address port now = ground arith

forget-Quiet : (fd : ℕ) (s : Server) → Quiet s (forget fd s)
unfolding forget
forget-Quiet fd s = ground arith

pub remove_client-Quiet :
    (env : Env) (caller fd : ℕ) (s : Server) → Quiet s (left (remove_client env caller fd s))
unfolding remove_client join_thread
remove_client-Quiet env caller fd s =
    ground (arith, (forget-Quiet fd s).history, (forget-Quiet fd s).rooms)

module _ (env : Env) (fd : ℕ) (c : ClientInfo) (args : Bytes) (s : Server) where
  pub kick-Quiet : Quiet s (left (kick env fd c args s))
  unfolding kick kicked find_target
  kick-Quiet = grind (arith, broadcast-Quiet, remove_client-Quiet)

  pub quit-Quiet : Quiet s (left (quit env fd c s))
  unfolding quit
  quit-Quiet = grind (arith, broadcast-Quiet, remove_member-Quiet, remove_client-Quiet)
