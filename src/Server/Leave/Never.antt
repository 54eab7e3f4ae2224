-- ===== src/Server/Leave/Never.antt =====
-- src/server.cpp: the thread of a client over the lines of that client.
pub mod Lines
use smallchat.Base.{
  ℕ, ◌≡◌, refl, sym, ap, ◌∙◌, Bool, true, false, not, none, some, Bytes, arith, inl, inr,
  Option-cases, eqb, eqb_iff, lookup, erase, lookup-erase, nat_eq, bytes_eq, is_empty,
  if◌then◌else◌, List,
}
use smallchat.Server.Account.{
  enter, logged_in, login_known, login_new, login, registered_state, register, nick,
}
use smallchat.Server.Admin.{mute, unmute, kick, muted, unmuted, kicked, find_target}
use smallchat.Server.Leave.{forget, join_thread, remove_client, quit}
use smallchat.Server.Registry.Same.{Same, broadcast-Same, remove_member-Same}
use smallchat.Server.Rooms.{
  create_room, created, join_room, join_private, join_checked, joined, leave_room, remove_member,
}
use smallchat.Server.Send.{broadcast, rename}
use smallchat.Server.State.{ClientInfo, Server, Env, Outcome, returns, stops}

-- client_threads_ has a joinable thread for the socket.
unfoldable pub has_thread : ℕ → Server → Bool
has_thread fd s = elim (lookup fd s.client_threads) [ none ↦ false | some joinable ↦ joinable ]

-- A call has not returned, or the thread is still there.
unfoldable pub holds : ℕ → Outcome Server → Bool
unfolding has_thread
holds fd (returns v) = has_thread fd v
holds fd (stops why v) = true

module _ (env : Env) (fd : ℕ) (c : ClientInfo) (args : Bytes) (s : Server)
    (h : has_thread fd s ≡ true) where
  pub login-holds : holds fd (login env fd c args s) ≡ true
  unfolding holds has_thread login login_known login_new logged_in enter rename
  login-holds = grind (arith, h, broadcast-Same)

  pub register-holds : holds fd (register env fd c args s) ≡ true
  unfolding holds has_thread register registered_state enter rename
  register-holds = grind (arith, h, broadcast-Same)

  pub nick-holds : has_thread fd (nick fd c args s) ≡ true
  unfolding has_thread nick rename
  nick-holds = grind (arith, h, broadcast-Same)

  pub mute-holds : has_thread fd (mute env fd c args s) ≡ true
  unfolding has_thread mute muted find_target
  mute-holds = grind (arith, h, broadcast-Same)

  pub unmute-holds : has_thread fd (unmute env fd c args s) ≡ true
  unfolding has_thread unmute unmuted find_target
  unmute-holds = grind (arith, h, broadcast-Same)

  pub create_room-holds : holds fd (create_room env fd c args s) ≡ true
  unfolding create_room created holds has_thread
  create_room-holds = grind (arith, h, broadcast-Same)

  pub join_room-holds : holds fd (join_room env fd c args s) ≡ true
  unfolding join_room join_private join_checked joined holds has_thread
  join_room-holds = grind (arith, h, broadcast-Same)

  pub leave_room-holds : has_thread fd (leave_room fd c s) ≡ true
  unfolding leave_room remove_member has_thread
  leave_room-holds = grind (arith, h, broadcast-Same)

threads-erase :
    (fd gone : ℕ) (m : List (ℕ × Bool))
    → lookup fd (erase gone m) ≡ (if eqb gone fd then none else lookup fd m)
threads-erase fd gone m = lookup-erase gone fd m

-- A thread that removes a client, its own or another.
pub remove_client-holds :
    (env : Env) (fd other : ℕ) (s : Server)
    → has_thread fd s ≡ true
    → holds fd (remove_client env fd other s) ≡ true
unfolding remove_client join_thread forget holds has_thread
remove_client-holds env fd other s h = grind (arith, h, threads-erase fd, eqb_iff other fd)

module _ (env : Env) (fd : ℕ) (c : ClientInfo) (args : Bytes) (s : Server)
    (h : has_thread fd s ≡ true) where
  pub kick-holds : holds fd (kick env fd c args s) ≡ true
  unfolding kick kicked find_target has_thread holds
  kick-holds = grind (arith, h, broadcast-Same, remove_client-holds)

  pub quit-holds : holds fd (quit env fd c s) ≡ true
  unfolding quit has_thread
  quit-holds = grind (arith, h, broadcast-Same, remove_member-Same, remove_client-holds)
