-- ===== src/Server/Leave/Join.antt =====
-- src/server.cpp: the join of the client thread in removeClient.
use smallchat.Base.{ℕ, ◌≡◌, true, some, arith, lookup, nat_eq, bytes_eq, eqb_iff}
use smallchat.Server.Leave.{forget, join_thread, remove_client}
use smallchat.Server.Line.{Input, step}
use smallchat.Server.Send.{emit}
use smallchat.Server.State.{Server, Env, closes, joins_itself, stops}

-- The thread table is not touched before the join.
forget_threads : (fd : ℕ) (s : Server) → (forget fd s).client_threads ≡ s.client_threads
unfolding forget
forget_threads fd s = ground arith

-- When the connection of a client ends and its thread has not been joined, removeClient, which that
-- thread runs, takes the client out of the tables, closes the socket, and then joins the thread it
-- runs on: the call does not return.
pub end-joins_itself :
    (env : Env) (fd : ℕ) (s : Server)
    → lookup fd s.client_threads ≡ some true
    → step (Input.end env fd) s ≡ stops joins_itself (emit (closes fd) (forget fd s))
unfolding step remove_client join_thread
end-joins_itself env fd s running = ground (arith, forget_threads fd s, eqb_iff fd fd)
