-- ===== src/Server/Registry/Once.antt =====
-- src/server.cpp: no socket stands twice in clients_.
pub mod Steps
pub mod Sent
use smallchat.Base.{
  ℕ, ◌≡◌, refl, ap, ◌∙◌, sym, Bool, true, false, not, ◌&&◌, none, some, List, [], ◌∷◌, Bytes, arith,
  eqb, eqb_iff, lookup, insert, erase, lookup-insert, lookup-erase, nat_eq, bytes_eq, if◌then◌else◌,
}
use smallchat.Server.Account.{
  enter, logged_in, login_known, login_new, login, registered_state, register, nick,
}
use smallchat.Server.Admin.{mute, unmute, kick, muted, unmuted, kicked, find_target}
use smallchat.Server.Leave.{forget, join_thread, remove_client, quit}
use smallchat.Server.Line.{accept}
use smallchat.Server.Registry.Same.{Same, broadcast-Same, remove_member-Same}
use smallchat.Server.Rooms.{
  create_room, created, join_room, join_private, join_checked, joined, leave_room, remove_member,
}
use smallchat.Server.Send.{broadcast, rename}
use smallchat.Server.State.{ClientInfo, Server, Env, left}

unfoldable pub has_key : ℕ → List (ℕ × ClientInfo) → Bool
has_key k m = elim (lookup k m) [ none ↦ false | some c ↦ true ]

unfoldable pub are_distinct : List (ℕ × ClientInfo) → Bool
unfolding has_key
are_distinct [] = true
are_distinct ((k, c) ∷ m) = not (has_key k m) && are_distinct m

pub insert-are_distinct :
    (fd : ℕ) (d : ClientInfo) (m : List (ℕ × ClientInfo))
    → are_distinct m ≡ true
    → are_distinct (insert fd d m) ≡ true
unfolding are_distinct has_key insert lookup
insert-are_distinct fd d [] h = refl
insert-are_distinct fd d ((j, c) ∷ m) h =
    ground (arith, insert-are_distinct fd d m, lookup-insert fd j d m, eqb_iff j fd, eqb_iff fd j)

erase-are_distinct :
    (fd : ℕ) (m : List (ℕ × ClientInfo)) → are_distinct m ≡ true → are_distinct (erase fd m) ≡ true
unfolding are_distinct has_key erase
erase-are_distinct fd [] h = refl
erase-are_distinct fd ((j, c) ∷ m) h =
    ground (arith, erase-are_distinct fd m, lookup-erase fd j m, eqb_iff j fd, eqb_iff fd j)

-- No socket stands twice.
unfoldable pub is_single : Server → Bool
is_single s = are_distinct s.clients

module _ (env : Env) (fd : ℕ) (c : ClientInfo) (args : Bytes) (s : Server)
    (h : is_single s ≡ true) where
  pub login-is_single : is_single (left (login env fd c args s)) ≡ true
  unfolding is_single login login_known login_new logged_in enter rename
  login-is_single = grind (arith, h, broadcast-Same, insert-are_distinct)

  pub register-is_single : is_single (left (register env fd c args s)) ≡ true
  unfolding is_single register registered_state enter rename
  register-is_single = grind (arith, h, broadcast-Same, insert-are_distinct)

  pub nick-is_single : is_single (nick fd c args s) ≡ true
  unfolding is_single nick rename
  nick-is_single = grind (arith, h, broadcast-Same, insert-are_distinct)

  pub mute-is_single : is_single (mute env fd c args s) ≡ true
  unfolding is_single mute muted find_target
  mute-is_single = grind (arith, h, broadcast-Same, insert-are_distinct)

  pub unmute-is_single : is_single (unmute env fd c args s) ≡ true
  unfolding is_single unmute unmuted find_target
  unmute-is_single = grind (arith, h, broadcast-Same, insert-are_distinct)

  pub create_room-is_single : is_single (left (create_room env fd c args s)) ≡ true
  unfolding create_room created is_single
  create_room-is_single = grind (arith, h, broadcast-Same, insert-are_distinct)

  pub join_room-is_single : is_single (left (join_room env fd c args s)) ≡ true
  unfolding join_room join_private join_checked joined is_single
  join_room-is_single = grind (arith, h, broadcast-Same, insert-are_distinct)

  pub leave_room-is_single : is_single (leave_room fd c s) ≡ true
  unfolding leave_room remove_member is_single
  leave_room-is_single = grind (arith, h, broadcast-Same, insert-are_distinct)

pub remove_client-is_single :
    (env : Env) (caller fd : ℕ) (s : Server)
    → is_single s ≡ true
    → is_single (left (remove_client env caller fd s)) ≡ true
unfolding remove_client join_thread forget is_single
remove_client-is_single env caller fd s h = grind (arith, h, erase-are_distinct)

module _ (env : Env) (fd : ℕ) (c : ClientInfo) (args : Bytes) (s : Server)
    (h : is_single s ≡ true) where
  pub kick-is_single : is_single (left (kick env fd c args s)) ≡ true
  unfolding kick kicked find_target is_single
  kick-is_single = grind (arith, h, broadcast-Same, remove_client-is_single)

  pub quit-is_single : is_single (left (quit env fd c s)) ≡ true
  unfolding quit is_single
  quit-is_single = grind (arith, h, broadcast-Same, remove_member-Same, remove_client-is_single)

pub accept-is_single :
    (fd : ℕ) (ip_address : Bytes) (port now : ℕ) (s : Server)
    → is_single s ≡ true
    → is_single (accept fd ip_address port now s) ≡ true
unfolding accept is_single
accept-is_single fd ip_address port now s h = grind (arith, h, insert-are_distinct)
