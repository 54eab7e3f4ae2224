-- ===== src/Server/Registry/Members.antt =====
-- src/server.cpp: who gets what is said in a room, in the states that a server comes to.
use smallchat.Base.{
  ℕ, Bool, false, eqb, eqb_iff, Bool-cases, ◌≡◌, ap, ◌∙◌, inl, inr, true, ◌||◌, some, List, [], ◌∷◌,
  Bytes, All, arith, equal, equal_iff, lookup, nat_eq, bytes_eq, Option-cases,
}
use smallchat.Server.Registry.Reach.{Reaches, reachable-IsConsistent}
use smallchat.Server.Registry.Tables.{IsConsistent, view}
use smallchat.Server.Rooms.{contains}
use smallchat.Server.Send.{member_sockets_of, room_sockets}
use smallchat.Server.State.{ChatRoom, Server}

-- The socket of a client whose name is among the members.
abbrev pub IsMember : Server → List Bytes → ℕ → Type 0
IsMember s members k =
    (name : Bytes) × ((contains members name ≡ true) × (view s k ≡ some (name, k)))

later-IsMember :
    (s : Server) (m : Bytes) (ms : List Bytes) (k : ℕ) → IsMember s ms k → IsMember s (m ∷ ms) k
unfolding contains
later-IsMember s m ms k (name, (h, e)) = (name, (ground arith, e))

All-later :
    (s : Server) (m : Bytes) (ms : List Bytes) (ks : List ℕ)
    → All (IsMember s ms) ks
    → All (IsMember s (m ∷ ms)) ks
All-later s m ms [] h = tt
All-later s m ms (k ∷ ks) (x, h) = (later-IsMember s m ms k x, All-later s m ms ks h)

first-IsMember :
    (s : Server) (m : Bytes) (ms : List Bytes) (k : ℕ)
    → IsConsistent s
    → lookup m s.name_to_socket ≡ some k
    → IsMember s (m ∷ ms) k
unfolding contains
first-IsMember s m ms k v e = (m, (ground (arith, equal_iff m m), v.registered m k e))

pub members-IsMember :
    (s : Server) (ms : List Bytes)
    → IsConsistent s
    → All (IsMember s ms) (member_sockets_of ms s.name_to_socket)
unfolding member_sockets_of
members-IsMember s [] v = tt
members-IsMember s (m ∷ ms) v =
    let later = All-later s m ms _ (members-IsMember s ms v) in
    elim (Option-cases (lookup m s.name_to_socket)) [
      | inl e ↦ rw (e, member_sockets_of) later
      | inr (k, e) ↦ rw (e, member_sockets_of) (first-IsMember s m ms k v e, later)
    ]

-- In every state that a server without clients comes to, what is said in a room goes only to sockets of
-- clients whose names are among its members. New connections come with a socket that no client has.
pub room_sockets-IsMember :
    (s : Server) (room : Bytes) (r : ChatRoom)
    → Reaches s
    → lookup room s.rooms ≡ some r
    → All (IsMember s r.members) (room_sockets room s)
unfolding room_sockets
room_sockets-IsMember s room r reached there =
    rw (there, room_sockets) (members-IsMember s r.members (reachable-IsConsistent s reached))

abbrev pub is_among : List ℕ → ℕ → Bool
is_among [] k = false
is_among (j ∷ js) k = eqb j k || is_among js k

found-is_among :
    (ms : List Bytes) (names : List (Bytes × ℕ)) (name : Bytes) (k : ℕ)
    → contains ms name ≡ true
    → lookup name names ≡ some k
    → is_among (member_sockets_of ms names) k ≡ true
unfolding member_sockets_of contains
found-is_among [] names name k h e = absurd (ground arith)
found-is_among (m ∷ ms) names name k h e = elim (Bool-cases (equal m name)) [
  | inl same ↦
      let here : lookup m names ≡ some k =
        ap (λ n. lookup n names) ((equal_iff m name).0 same) ∙ e in
      rw (here, member_sockets_of) (ground (arith, eqb_iff k k))
  | inr other ↦
      let later = found-is_among ms names name k (ground arith) e in
      elim (Option-cases (lookup m names)) [
        | inl none_there ↦ rw (none_there, member_sockets_of) later
        | inr (j, there) ↦ rw (there, member_sockets_of) (ground arith)
      ]
]

-- What is said in a room goes to the socket of every member whose name is registered.
pub room_sockets-is_among :
    (s : Server) (room : Bytes) (r : ChatRoom) (name : Bytes) (k : ℕ)
    → lookup room s.rooms ≡ some r
    → contains r.members name ≡ true
    → lookup name s.name_to_socket ≡ some k
    → is_among (room_sockets room s) k ≡ true
unfolding room_sockets
room_sockets-is_among s room r name k there member named =
    rw (there, room_sockets) (found-is_among r.members s.name_to_socket name k member named)
