-- ===== src/Server/Rooms/Changes.antt =====
-- src/server.cpp: rooms_ under /createroom, /joinroom, /leaveroom and /quit.
use smallchat.Base.{
  ℕ, ◌≡◌, refl, Bool, false, not, ◌&&◌, ◌||◌, some, List, [], ◌∷◌, ◌++◌, Bytes, codes, inl, inr,
  Option-cases, Bool-cases, equal, is_empty, if◌then◌else◌, lookup, bytes_eq, nat_eq,
}
use smallchat.Server.Leave.{quit}
use smallchat.Server.Password.{hash_password, verify_password}
use smallchat.Server.Registry.Lines.{if_all}
use smallchat.Server.Rooms.{
  contains, created, create_room, joined, join_checked, join_private, join_room, remove_member,
  leave_room,
}
use smallchat.Server.Rooms.Full.{
  IsFull, LeavesFull, Kept-IsFull, insert-IsFull, remove_member-IsFull,
}
use smallchat.Server.Rooms.Kept.{broadcast-Kept}
use smallchat.Server.Rooms.Kept.Commands.{remove_client-Kept}
use smallchat.Server.Rooms.Members.{append-IsDistinct}
use smallchat.Codec.Frames.{encode_system_message}
use smallchat.Server.Send.{broadcast}
use smallchat.Server.State.{ClientInfo, ChatRoom, Server, Env, returns, attempt, ◌>>=◌}
use smallchat.Std.Stream.{next_word, rest_of_line}

filled_append : (ms : List Bytes) (n : Bytes) → is_empty (ms ++ (n ∷ [])) ≡ false
filled_append [] n = refl
filled_append (m ∷ ms) n = refl

module _ (env : Env) (fd : ℕ) (c : ClientInfo) (s : Server) (v : IsFull s) where
  created-IsFull :
      (name : Bytes) (is_private : Bool) (password : Bytes)
      → IsFull (created env fd c name is_private password s)
  unfolding created contains
  created-IsFull name is_private password =
      insert-IsFull s v name _ _ (broadcast-Kept _ _)
        (record { named = refl; filled = refl; distinct = (refl, tt) })

  hashed-IsFull :
      (name password : Bytes) (is_private : Bool)
      → LeavesFull (do
        hashed ← attempt s (hash_password env.derive password env.salt)
        returns (created env fd c name is_private hashed s))
  hashed-IsFull name password is_private =
      elim (Option-cases (hash_password env.derive password env.salt)) [
        | inl e ↦ rw e v
        | inr (hashed, e) ↦ rw e (created-IsFull name is_private hashed)
      ]

  joined-IsFull :
      (name : Bytes) (room : ChatRoom)
      → lookup name s.rooms ≡ some room
      → contains room.members c.name ≡ false
      → IsFull (joined fd c name room s)
  unfolding joined
  joined-IsFull name room there new =
      let w = v.whole name room there in
      insert-IsFull s v name _ _ (broadcast-Kept _ _) (record {
        named = w.named;
        filled = filled_append room.members c.name;
        distinct = append-IsDistinct room.members c.name new w.distinct;
      })

  join_checked-IsFull :
      (name : Bytes) (room : ChatRoom)
      → lookup name s.rooms ≡ some room
      → IsFull (join_checked fd c name room s)
  unfolding join_checked
  join_checked-IsFull name room there = elim (Bool-cases (contains room.members c.name)) [
    | inl e ↦ rw e (Kept-IsFull refl v)
    | inr e ↦ rw e (joined-IsFull name room there e)
  ]

  join_private-IsFull :
      (name password : Bytes) (room : ChatRoom)
      → lookup name s.rooms ≡ some room
      → LeavesFull (join_private env fd c name password room s)
  unfolding join_private
  join_private-IsFull name password room there = elim (Bool-cases (is_empty password)) [
    | inl e ↦ rw e (Kept-IsFull {s = s} refl v)
    | inr e ↦ elim (Option-cases (verify_password env.derive password room.password)) [
      | inl fails ↦ rw (e, fails) v
      | inr (ok, checked) ↦
          rw (e, checked)
            (if_all IsFull ok _ _ (join_checked-IsFull name room there)
              (Kept-IsFull {s = s} refl v))
    ]
  ]

  pub join_room-IsFull : (args : Bytes) → LeavesFull (join_room env fd c args s)
  unfolding join_room
  join_room-IsFull args =
      let name = (next_word args).0 in
      let password = rest_of_line (next_word args).1 in
      if_all LeavesFull (is_empty name) _ _ (Kept-IsFull {s = s} refl v)
        (elim (Option-cases (lookup name s.rooms)) [
          | inl e ↦ rw (e, join_room) (Kept-IsFull {s = s} refl v)
          | inr (room, e) ↦
              rw (e, join_room)
                (if_all LeavesFull room.is_private _ _ (join_private-IsFull name password room e)
                  (join_checked-IsFull name room e))
        ])

  pub create_room-IsFull : (args : Bytes) → LeavesFull (create_room env fd c args s)
  unfolding create_room
  create_room-IsFull args =
      let (name, rest) = next_word args in
      let (flag, rest') = next_word rest in
      let password = (next_word rest').0 in
      let is_private = equal flag (codes "private") || equal flag (codes "1") in
      if_all LeavesFull (is_empty name) _ _ (Kept-IsFull {s = s} refl v)
        (elim (Option-cases (lookup name s.rooms)) [
          | inl e ↦
              rw (e, create_room)
                (if_all LeavesFull (is_private && not (is_empty password)) _ _
                  (hashed-IsFull name password is_private) (created-IsFull name is_private []))
          | inr (room, e) ↦ rw (e, create_room) (Kept-IsFull {s = s} refl v)
        ])

  pub leave_room-IsFull : IsFull (leave_room fd c s)
  unfolding leave_room
  leave_room-IsFull = if_all IsFull (is_empty c.current_room) _ _ (Kept-IsFull refl v) (
      Kept-IsFull {s = remove_member c.current_room c.name s} (broadcast-Kept _ _)
        (remove_member-IsFull s v c.current_room c.name))

  pub quit-IsFull : LeavesFull (quit env fd c s)
  unfolding quit
  quit-IsFull =
      let outside = remove_member c.current_room c.name s in
      let left_room =
        broadcast (encode_system_message (c.name ++ (codes " left room: " ++ c.current_room)))
          outside in
      Kept-IsFull {s = if is_empty c.current_room then s else left_room}
        (remove_client-Kept env fd fd _)
        (if_all IsFull (is_empty c.current_room) _ _ v (
          Kept-IsFull {s = outside} (broadcast-Kept _ _)
            (remove_member-IsFull s v c.current_room c.name)))
