-- ===== src/Server/Rooms/Full.antt =====
-- src/server.cpp: rooms_ under /createroom, /joinroom, /leaveroom and /quit.
use smallchat.Base.{
  ◌≡◌, refl, ap, sym, ◌∙◌, subst, false, some, Bytes, arith, inl, inr, Option-cases, Bool-cases,
  equal, equal_iff, is_empty, lookup, insert, erase, lookup-insert, lookup-erase, bytes_eq, nat_eq,
}
use smallchat.Server.Rooms.{remove, remove_member}
use smallchat.Server.Rooms.Kept.{Kept}
use smallchat.Server.Rooms.Members.{IsDistinct, remove-IsDistinct}
use smallchat.Server.State.{ChatRoom, Server, Outcome, left}

-- A room under its own name, with members, none of them twice.
pub record IsWhole (room_name : Bytes) (room : ChatRoom) : Type 0 where
  pub named : room.name ≡ room_name
  pub filled : is_empty room.members ≡ false
  pub distinct : IsDistinct room.members

pub record IsFull (s : Server) : Type 0 where
  pub whole :
      (room_name : Bytes) (room : ChatRoom)
      → lookup room_name s.rooms ≡ some room
      → IsWhole room_name room

abbrev pub LeavesFull : Outcome Server → Type 0
LeavesFull r = IsFull (left r)

pub Kept-IsFull : {s t : Server} → Kept s t → IsFull s → IsFull t
Kept-IsFull e v = record { whole = λ n r h. v.whole n r (ap (lookup n) (sym e) ∙ h) }

some_eq : {A : Type 0} {a b : A} → some a ≡ some b → a ≡ b
some_eq e = ground arith

module _ (s : Server) (v : IsFull s) (room_name : Bytes) where
  insert-IsWhole :
      (room : ChatRoom)
      → IsWhole room_name room
      → (n : Bytes) (r : ChatRoom) → lookup n (insert room_name room s.rooms) ≡ some r
      → IsWhole n r
  insert-IsWhole room w n r h = elim (Bool-cases (equal room_name n)) [
    | inl same ↦
        let put = lookup-insert room_name n room s.rooms in
        let here : some room ≡ some r = ground arith in
        subst (λ k. IsWhole k r) ((equal_iff room_name n).0 same)
          (subst (IsWhole room_name) (some_eq here) w)
    | inr other ↦ v.whole n r (ground (arith, lookup-insert room_name n room s.rooms))
  ]

  pub insert-IsFull :
      (room : ChatRoom) (t : Server)
      → t.rooms ≡ insert room_name room s.rooms
      → IsWhole room_name room
      → IsFull t
  insert-IsFull room t e w = record {
    whole = λ n r h. insert-IsWhole room w n r (ap (lookup n) (sym e) ∙ h);
  }

  erase-IsFull : (t : Server) → t.rooms ≡ erase room_name s.rooms → IsFull t
  erase-IsFull t e = record { whole = λ n r h. v.whole n r (kept n r (ap (lookup n) (sym e) ∙ h)) }
    where
      kept :
          (n : Bytes) (r : ChatRoom)
          → lookup n (erase room_name s.rooms) ≡ some r
          → lookup n s.rooms ≡ some r
      kept n r h = ground (arith, lookup-erase room_name n s.rooms)

  pub remove_member-IsFull : (name : Bytes) → IsFull (remove_member room_name name s)
  unfolding remove_member
  remove_member-IsFull name = elim (Option-cases (lookup room_name s.rooms)) [
    | inl e ↦ rw (e, remove_member) v
    | inr (room, e) ↦
        rw (e, remove_member)
          (elim (Bool-cases (is_empty (remove name room.members))) [
            | inl gone ↦ erase-IsFull _ (rw gone refl)
            | inr stay ↦
                insert-IsFull (record room { members = remove name room.members }) _ (rw stay refl)
                  (record {
                    named = (v.whole room_name room e).named;
                    filled = stay;
                    distinct =
                        remove-IsDistinct name room.members (v.whole room_name room e).distinct;
                  })
          ])
  ]
