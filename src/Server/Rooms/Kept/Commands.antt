-- ===== src/Server/Rooms/Kept/Commands.antt =====
-- src/server.cpp: the commands that change accounts and clients do not touch rooms_.
use smallchat.Base.{ℕ, Bytes, arith, nat_eq, bytes_eq}
use smallchat.Server.Account.{
  enter, logged_in, login_known, login_new, login, registered_state, register, nick,
}
use smallchat.Server.Admin.{mute, unmute, kick, muted, unmuted, kicked, find_target}
use smallchat.Server.Rooms.Kept.{Kept, broadcast-Kept}
use smallchat.Server.Leave.{forget, join_thread, remove_client}
use smallchat.Server.Line.{accept}
use smallchat.Server.Send.{rename}
use smallchat.Server.State.{ClientInfo, Server, Env, left}

module _ (fd : ℕ) (c : ClientInfo) (args : Bytes) (s : Server) where
  pub nick-Kept : Kept s (nick fd c args s)
  unfolding nick rename
  nick-Kept = grind (arith, broadcast-Kept)

module _ (env : Env) (fd : ℕ) (c : ClientInfo) (args : Bytes) (s : Server) where
  pub login-Kept : Kept s (left (login env fd c args s))
  unfolding login login_known login_new logged_in enter rename
  login-Kept = grind (arith, broadcast-Kept)

  pub register-Kept : Kept s (left (register env fd c args s))
  unfolding register registered_state enter rename
  register-Kept = grind (arith, broadcast-Kept)

  pub mute-Kept : Kept s (mute env fd c args s)
  unfolding mute muted find_target
  mute-Kept = grind (arith, broadcast-Kept)

  pub unmute-Kept : Kept s (unmute env fd c args s)
  unfolding unmute unmuted find_target
  unmute-Kept = grind (arith, broadcast-Kept)

pub accept-Kept :
    (fd : ℕ) (s : Server) (ip_address : Bytes) (port now : ℕ)
    → Kept s (accept fd ip_address port now s)
unfolding accept
accept-Kept fd s ip_address port now = ground arith

forget-Kept : (fd : ℕ) (s : Server) → Kept s (forget fd s)
unfolding forget
forget-Kept fd s = ground arith

pub remove_client-Kept :
    (env : Env) (caller fd : ℕ) (s : Server) → Kept s (left (remove_client env caller fd s))
unfolding remove_client join_thread
remove_client-Kept env caller fd s = ground (arith, forget-Kept fd s)

module _ (env : Env) (fd : ℕ) (c : ClientInfo) (args : Bytes) (s : Server) where
  pub kick-Kept : Kept s (left (kick env fd c args s))
  unfolding kick kicked find_target
  kick-Kept = grind (arith, broadcast-Kept, remove_client-Kept)
