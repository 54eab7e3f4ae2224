-- ===== src/Server/Registry/Fresh.antt =====
-- src/server.cpp: clients_ and client_threads_ with a new client.
use smallchat.Base.{
  ℕ, ◌≡◌, true, none, some, Bytes, arith, lookup, insert, eqb_iff, nat_eq, bytes_eq, lookup-insert,
}
use smallchat.Server.State.{ClientInfo, Server}
use smallchat.Server.Registry.Tables.{identity, IsConsistent}

fresh_registered :
    (s : Server) (fd : ℕ) (c : ClientInfo)
    → lookup fd s.clients ≡ none
    → IsConsistent s
    → (m : Bytes) (j : ℕ) → lookup m s.name_to_socket ≡ some j
    → identity (lookup j (insert fd c s.clients)) ≡ some (m, j)
fresh_registered s fd c free v m j e =
    ground (arith, lookup-insert fd j c s.clients, eqb_iff fd j, v.registered m j)

fresh_placed :
    (s : Server) (fd : ℕ) (c : ClientInfo)
    → c.socket_fd ≡ fd
    → IsConsistent s
    → (j k : ℕ) (m : Bytes) → identity (lookup j (insert fd c s.clients)) ≡ some (m, k)
    → k ≡ j
fresh_placed s fd c own v j k m e =
    ground (arith, lookup-insert fd j c s.clients, eqb_iff fd j, v.placed j k m)

fresh_threaded :
    (s : Server) (fd : ℕ) (c : ClientInfo)
    → IsConsistent s
    → (j k : ℕ) (m : Bytes) → identity (lookup j (insert fd c s.clients)) ≡ some (m, k)
    → lookup j (insert fd true s.client_threads) ≡ some true
fresh_threaded s fd c v j k m e = ground (
  arith,
  lookup-insert fd j c s.clients,
  lookup-insert fd j true s.client_threads,
  eqb_iff fd j,
  v.threaded j k m,
)

-- A new client under a socket that is not in use, and under no name yet.
pub insert-IsConsistent :
    (s : Server) (fd : ℕ) (c : ClientInfo)
    → lookup fd s.clients ≡ none
    → c.socket_fd ≡ fd
    → IsConsistent s
    → IsConsistent (record s {
      clients = insert fd c s.clients;
      client_threads = insert fd true s.client_threads;
    })
insert-IsConsistent s fd c free own v = record {
  registered = λ m j e. fresh_registered s fd c free v m j e;
  placed = λ j k m e. fresh_placed s fd c own v j k m e;
  threaded = λ j k m e. fresh_threaded s fd c v j k m e;
}
