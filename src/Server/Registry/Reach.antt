-- ===== src/Server/Registry/Reach.antt =====
-- src/server.cpp: clients_ and name_to_socket_ over the inputs of a server.
use smallchat.Base.{none, some, [], ℕ, ◌≡◌, refl, Bytes, arith, lookup, nat_eq, bytes_eq, subst}
use smallchat.Server.Line.{accept, Input, connection, line, end, step}
use smallchat.Server.Registry.Commands.{Leaves}
use smallchat.Server.Registry.Fresh.{insert-IsConsistent}
use smallchat.Server.Registry.Tables.{IsConsistent, sent-IsConsistent}
use smallchat.Server.State.{Server, returns}
use smallchat.Server.Registry.Steps.{remove_client-IsConsistent}
use smallchat.Server.Registry.Lines.{handle_line-IsConsistent, if_all}

accept-IsConsistent :
    (fd : ℕ) (ip_address : Bytes) (port now : ℕ) (s : Server)
    → lookup fd s.clients ≡ none
    → IsConsistent s
    → IsConsistent (accept fd ip_address port now s)
unfolding accept
accept-IsConsistent fd ip_address port now s free v =
    let welcomed = sent-IsConsistent _ _ (insert-IsConsistent s fd _ free refl v) in
    if_all IsConsistent s.connect_callback _ _ (sent-IsConsistent _ _ welcomed) welcomed

-- The operating system gives a connection a socket that is not in use.
abbrev pub IsPossible : Input → Server → Type 0
IsPossible (connection fd ip_address port now) s = lookup fd s.clients ≡ none
IsPossible (line env fd l) s = Unit
IsPossible (end env fd) s = Unit

none-some : {A : Type 0} {x : A} → none ≡ some x → ⊥
none-some e = ground arith

-- Whatever the input, a step keeps the two tables of clients together, also where the server stops at
-- it: each registered name leads to a client that has it, and each client stands under its own socket
-- and has a thread that can be joined. A new connection comes with a socket that no client has.
pub step-IsConsistent :
    (i : Input) (s : Server) → IsPossible i s → IsConsistent s → Leaves (step i s)
unfolding step
step-IsConsistent (connection fd ip_address port now) s free v =
    accept-IsConsistent fd ip_address port now s free v
step-IsConsistent (line env fd l) s tt v = handle_line-IsConsistent env fd s v l
step-IsConsistent (end env fd) s tt v = remove_client-IsConsistent env fd s v fd fd

-- The states that a server comes to, input by input, from any state without clients: new_server,
-- or one that has loaded users and messages and got its callbacks.
pub data Reaches : Server → Type 0 where
  starts : (s : Server) → s.clients ≡ [] → s.name_to_socket ≡ [] → Reaches s
  goes : (i : Input) {s t : Server} → Reaches s → IsPossible i s → step i s ≡ returns t → Reaches t

pub empty-IsConsistent : (s : Server) → s.clients ≡ [] → s.name_to_socket ≡ [] → IsConsistent s
unfolding lookup
empty-IsConsistent s no_clients no_names = record {
  registered = λ name fd e. absurd (none-some (rw no_names at e));
  placed = λ fd k name e. absurd (none-some (rw no_clients at e));
  threaded = λ fd k name e. absurd (none-some (rw no_clients at e));
}

-- In every state that a server without clients comes to, input by input, each registered name leads
-- to a client that has it, and each client stands under its own socket and has a thread that can be
-- joined, where new connections come with a socket that no client has.
pub reachable-IsConsistent : (s : Server) → Reaches s → IsConsistent s
reachable-IsConsistent _ (starts s no_clients no_names) = empty-IsConsistent s no_clients no_names
reachable-IsConsistent _ (goes i {s = s} {t = t} r possible e) =
    subst (λ o. Leaves o) e (step-IsConsistent i s possible (reachable-IsConsistent s r))
