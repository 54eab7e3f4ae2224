-- ===== src/Server/Registry/Ends.antt =====
-- src/server.cpp: the end of a connection and of the server, in the states that a server comes to.
use smallchat.Base.{ℕ, ◌≡◌, ◌⊎◌, inl, refl, ap, true, some, List, ◌∷◌, is_empty, lookup, nat_eq}
use smallchat.Server.Leave.{forget}
use smallchat.Server.Leave.Join.{end-joins_itself}
use smallchat.Server.Life.{Host, System, waits, shut, stop}
use smallchat.Server.Life.Mutex.{before, Scene, Steps, closing}
use smallchat.Server.Life.Mutex.Ahead.{Steps-IsAhead, closing-IsAhead}
use smallchat.Server.Life.Mutex.Held.{IsDeadlock, ends_of}
use smallchat.Server.Life.Waits.{stop-waits}
use smallchat.Server.Line.{Input, step}
use smallchat.Server.Registry.Reach.{Reaches, reachable-IsConsistent}
use smallchat.Server.Send.{emit}
use smallchat.Server.State.{ClientInfo, Server, Env, closes, joins_itself, stops}

client_thread :
    (s : Server) (fd : ℕ) (c : ClientInfo)
    → Reaches s
    → lookup fd s.clients ≡ some c
    → lookup fd s.client_threads ≡ some true
client_thread s fd c r here =
    (reachable-IsConsistent s r).threaded fd c.socket_fd c.name (rw here refl)

-- In every state that a server without clients comes to, the end of the connection of any client stops
-- the server: the client is taken out of the tables, its socket is closed, and then removeClient joins
-- the thread it runs on. New connections come with a socket that no client has.
pub reachable-end :
    (env : Env) (fd : ℕ) (c : ClientInfo) (s : Server)
    → Reaches s
    → lookup fd s.clients ≡ some c
    → step (Input.end env fd) s ≡ stops joins_itself (emit (closes fd) (forget fd s))
reachable-end env fd c s r here = end-joins_itself env fd s (client_thread s fd c r here)

-- In every state that a server without clients comes to, stop of a running server with a client whose
-- thread still has its own client to remove does what stands before its joins and does not return: in
-- whatever order stop and the client threads take their steps, stop has not locked threads_mutex_ yet,
-- or it holds the mutex for good and waits for this thread, which does not return, while no thread gets
-- the mutex and the program goes on.
pub reachable-stop :
    (sys : System) (courses : ℕ → List ℕ) (fd : ℕ) (later : List ℕ) (c : ClientInfo) (h : Host)
    → Reaches h.server
    → h.running ≡ true
    → lookup fd h.server.clients ≡ some c
    → courses fd ≡ fd ∷ later
    → ((k : ℕ) × (stop sys (ends_of courses) h ≡ waits k (shut sys h)))
      × ((t : Scene)
          → Steps (closing courses h.server.client_threads) t
          → (t.stand ≡ before) ⊎ (IsDeadlock fd t))
reachable-stop sys courses fd later c h r on here own =
    let thread = client_thread h.server fd c r here in
    (
      stop-waits sys (ends_of courses) fd h on thread (ap is_empty own),
      λ t steps.
          Steps-IsAhead fd steps
            (inl (closing-IsAhead courses h.server.client_threads fd later thread own)),
    )
