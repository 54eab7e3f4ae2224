-- ===== src/Server/Registry/Renamed.antt =====
-- src/server.cpp: /nick of a member of a room, which leaves the names of the members as they are.
use smallchat.Base.{
  ℕ, ◌≡◌, refl, ap, ◌∙◌, subst, false, inl, inr, none, some, List, [], ◌∷◌, Bytes, All, arith, eqb,
  eqb_iff, is_empty, lookup, insert, lookup-insert, nat_eq, bytes_eq, Bool-cases,
}
use smallchat.Server.Account.{nick}
use smallchat.Server.Registry.Commands.{nick-Names}
use smallchat.Server.Registry.Members.{IsMember, is_among, members-IsMember}
use smallchat.Server.Registry.Same.{broadcast-Same}
use smallchat.Server.Registry.Steps.{Names-IsConsistent}
use smallchat.Server.Registry.Tables.{IsConsistent, identity, view}
use smallchat.Server.Rooms.{contains}
use smallchat.Server.Rooms.Kept.Commands.{nick-Kept}
use smallchat.Server.Send.{get_client_by_name, rename, room_sockets, member_sockets_of}
use smallchat.Server.State.{ClientInfo, ChatRoom, Server}
use smallchat.Std.Stream.{next_word}

not_among :
    (s : Server) (ms : List Bytes) (ks : List ℕ) (fd : ℕ)
    → All (IsMember s ms) ks
    → (IsMember s ms fd → ⊥)
    → is_among ks fd ≡ false
not_among s ms [] fd h out = refl
not_among s ms (k ∷ ks) fd (x, h) out = elim (Bool-cases (eqb k fd)) [
  | inl same ↦ absurd (out (subst (IsMember s ms) ((eqb_iff k fd).0 same) x))
  | inr other ↦ rw other (not_among s ms ks fd h out)
]

module _ (fd : ℕ) (c : ClientInfo) (args : Bytes) (s : Server)
    (given : is_empty (next_word args).0 ≡ false)
    (free : get_client_by_name (next_word args).0 s ≡ none) where
  nick_clients :
      (nick fd c args s).clients ≡ insert fd (record c { name = (next_word args).0 }) s.clients
  unfolding nick rename
  nick_clients = grind (arith, broadcast-Same)

  view-nick : view (nick fd c args s) fd ≡ some ((next_word args).0, c.socket_fd)
  view-nick =
      ap (λ cs. identity (lookup fd cs)) nick_clients
      ∙ ground (
        arith,
        lookup-insert fd fd (record c { name = (next_word args).0 }) s.clients,
        eqb_iff fd fd,
      )

  not_member :
      (ms : List Bytes)
      → contains ms (next_word args).0 ≡ false
      → IsMember (nick fd c args s) ms fd
      → ⊥
  not_member ms new (name, (h, e)) = ground (arith, view-nick)

-- After a /nick that succeeds, in a state with consistent tables, each room is there as it was, and the
-- client is not among those that get what is said in it, unless the new name is the name of a member:
-- the members keep the old name.
pub nick-room_sockets :
    (fd : ℕ) (c : ClientInfo) (args : Bytes) (s : Server) (room : Bytes) (r : ChatRoom)
    → IsConsistent s
    → lookup fd s.clients ≡ some c
    → is_empty (next_word args).0 ≡ false
    → get_client_by_name (next_word args).0 s ≡ none
    → lookup room s.rooms ≡ some r
    → contains r.members (next_word args).0 ≡ false
    → (lookup room (nick fd c args s).rooms ≡ some r)
      × (is_among (room_sockets room (nick fd c args s)) fd ≡ false)
unfolding room_sockets
nick-room_sockets fd c args s room r v here given free there new =
    let t = nick fd c args s in
    let same : lookup room t.rooms ≡ some r = ap (lookup room) (nick-Kept fd c args s) ∙ there in
    let consistent = Names-IsConsistent fd c s here v (next_word args).0 (nick-Names fd c args s) in
    (
      same,
      rw (same, room_sockets)
          (not_among t r.members (member_sockets_of r.members t.name_to_socket) fd
            (members-IsMember t r.members consistent)
            (not_member fd c args s given free r.members new)),
    )
