-- ===== src/Server/Admin/Rights.antt =====
-- src/server.cpp: is_admin over the calls that change clients_.
pub mod Steps
use smallchat.Base.{
  ℕ, ◌≡◌, refl, sym, ◌∙◌, ap, ◌⊎◌, inl, inr, Bool, true, false, none, some, List, Bytes, arith,
  length, lookup, insert, erase, lookup-insert, lookup-erase, nat_eq, bytes_eq, eqb, eqb_iff,
  if◌then◌else◌, Option-cases,
}
use smallchat.Server.Account.{
  enter, logged_in, login_known, login_new, login, registered_state, register, nick,
}
use smallchat.Server.Admin.{mute, unmute, kick, muted, unmuted, kicked, find_target}
use smallchat.Server.Leave.{forget, join_thread, remove_client, quit}
use smallchat.Server.Line.{accept}
use smallchat.Server.Registry.Same.{Same, broadcast-Same}
use smallchat.Server.Rooms.{
  create_room, created, join_room, join_private, join_checked, joined, leave_room, remove_member,
}
use smallchat.Server.Send.{broadcast, rename}
use smallchat.Server.State.{ClientInfo, Server, Env, left}

-- Whether the client of a socket is an administrator.
unfoldable pub admin_at : ℕ → Server → Bool
admin_at k s = elim (lookup k s.clients) [ none ↦ false | some c ↦ c.is_admin ]

-- Who is administrator after a call was it before, or one user is registered.
unfoldable pub Earned : ℕ → Server → Server → Type 0
unfolding admin_at
Earned k s v = admin_at k v ≡ true → (admin_at k s ≡ true) ⊎ (length v.users ≡ 1)

module _ (k : ℕ) where
  pub Same-Earned : (s v : Server) → Same s v → Earned k s v
  unfolding Earned admin_at
  Same-Earned s v h e =
      inl (ap (λ m. elim (lookup k m) [ none ↦ false | some c ↦ c.is_admin ]) (sym h.clients) ∙ e)

  -- A call that changes the client of one socket.
  put-Earned :
      (fd : ℕ) (c d : ClientInfo) (s v : Server)
      → lookup fd s.clients ≡ some c
      → v.clients ≡ insert fd d s.clients
      → (d.is_admin ≡ true → (c.is_admin ≡ true) ⊎ (length v.users ≡ 1))
      → Earned k s v
  unfolding Earned admin_at
  put-Earned fd c d s v here e keeps h =
      grind
        (arith, here, keeps, ap (λ m. lookup k m) e, lookup-insert fd k d s.clients, eqb_iff fd k)

  broadcast-users : (m : Bytes) (s : Server) → (broadcast m s).users ≡ s.users
  unfolding broadcast
  broadcast-users m s = ground arith

  pub client-insert :
      (fd : ℕ) (d : ClientInfo) (m : List (ℕ × ClientInfo))
      → lookup k (insert fd d m) ≡ (if eqb fd k then some d else lookup k m)
  client-insert fd d m = lookup-insert fd k d m

  client-erase :
      (fd : ℕ) (m : List (ℕ × ClientInfo))
      → lookup k (erase fd m) ≡ (if eqb fd k then none else lookup k m)
  client-erase fd m = lookup-erase fd k m

  module _ (env : Env) (fd : ℕ) (c : ClientInfo) (args : Bytes) (s : Server)
      (here : lookup fd s.clients ≡ some c) where
    pub login-Earned : Earned k s (left (login env fd c args s))
    unfolding Earned admin_at login login_known login_new logged_in enter rename
    login-Earned = grind (arith, here, broadcast-Same, broadcast-users, client-insert, eqb_iff fd k)

    pub nick-Earned : Earned k s (nick fd c args s)
    unfolding Earned admin_at nick rename
    nick-Earned = grind (arith, here, broadcast-Same, broadcast-users, client-insert, eqb_iff fd k)

    pub register-Earned : Earned k s (left (register env fd c args s))
    unfolding Earned admin_at register registered_state enter rename
    register-Earned =
        grind (arith, here, broadcast-Same, broadcast-users, client-insert, eqb_iff fd k)

  module _ (env : Env) (fd : ℕ) (c : ClientInfo) (args : Bytes) (s : Server) where
    pub mute-Earned : Earned k s (mute env fd c args s)
    unfolding Earned admin_at mute muted find_target
    mute-Earned = grind (arith, broadcast-Same, broadcast-users, client-insert, eqb_iff)

    pub unmute-Earned : Earned k s (unmute env fd c args s)
    unfolding Earned admin_at unmute unmuted find_target
    unmute-Earned = grind (arith, broadcast-Same, broadcast-users, client-insert, eqb_iff)

  pub accept-Earned :
      (fd : ℕ) (ip_address : Bytes) (port now : ℕ) (s : Server)
      → Earned k s (accept fd ip_address port now s)
  unfolding Earned admin_at accept
  accept-Earned fd ip_address port now s = grind (arith, client-insert, eqb_iff)

  forget-Earned : (fd : ℕ) (s : Server) → Earned k s (forget fd s)
  unfolding Earned admin_at forget
  forget-Earned fd s = grind (arith, client-erase, eqb_iff)

  pub remove_client-Earned :
      (env : Env) (caller fd : ℕ) (s : Server) → Earned k s (left (remove_client env caller fd s))
  unfolding remove_client join_thread Earned admin_at
  remove_client-Earned env caller fd s = unfold forget in grind (arith, client-erase, eqb_iff)

  pub kick-Earned :
      (env : Env) (fd : ℕ) (c : ClientInfo) (args : Bytes) (s : Server)
      → Earned k s (left (kick env fd c args s))
  unfolding kick kicked find_target Earned admin_at
  kick-Earned env fd c args s = grind (arith, broadcast-Same, broadcast-users, remove_client-Earned)

  module _ (env : Env) (fd : ℕ) (c : ClientInfo) (s : Server)
      (here : lookup fd s.clients ≡ some c) where
    pub create_room-Earned : (args : Bytes) → Earned k s (left (create_room env fd c args s))
    unfolding create_room created Earned admin_at
    create_room-Earned args =
        grind (arith, here, broadcast-Same, broadcast-users, client-insert, eqb_iff fd k)

    pub join_room-Earned : (args : Bytes) → Earned k s (left (join_room env fd c args s))
    unfolding join_room join_private join_checked joined Earned admin_at
    join_room-Earned args =
        grind (arith, here, broadcast-Same, broadcast-users, client-insert, eqb_iff fd k)

    pub leave_room-Earned : Earned k s (leave_room fd c s)
    unfolding leave_room remove_member Earned admin_at
    leave_room-Earned =
        grind (arith, here, broadcast-Same, broadcast-users, client-insert, eqb_iff fd k)

    pub quit-Earned : Earned k s (left (quit env fd c s))
    unfolding quit remove_member Earned admin_at
    quit-Earned = grind (arith, broadcast-Same, broadcast-users, remove_client-Earned)
