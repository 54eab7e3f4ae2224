-- ===== src/Server/Threads.antt =====
-- src/server.cpp: the loops of acceptConnections and handleClient, round by round, and
-- receiveFromSocket. A round has the value of running_ at its start and the answer of the system.
pub mod Chunks
use smallchat.Base.{
  ℕ, suc, ◌+◌, length, Bool, true, false, List, [], ◌∷◌, Bytes, is_empty, if◌then◌else◌,
}
use smallchat.Codec.Lines.{c_string, receive}
use smallchat.Server.Leave.{remove_client}
use smallchat.Server.Line.{handle_line, accept}
use smallchat.Server.State.{Server, Env, Outcome, returns, ◌>>=◌}

-- accept: a connection (socket, address, port, time), EAGAIN or EWOULDBLOCK, or another error.
pub data Answer : Type 0 where
  connection : ℕ → Bytes → ℕ → ℕ → Answer
  would_block failed : Answer

-- Where a loop stands: it waits for an answer, or it has ended.
pub data Standing : Type 0 where
  waiting ended : Standing

unfoldable pub accept_connections : List (Bool × Answer) → Server → Server × Standing
accept_connections [] s = (s, waiting)
accept_connections ((running, connection fd ip_address port now) ∷ rounds) s =
    if running then accept_connections rounds (accept fd ip_address port now s) else (s, ended)
accept_connections ((running, would_block) ∷ rounds) s =
    if running then accept_connections rounds s else (s, ended)
accept_connections ((running, failed) ∷ rounds) s = (s, ended)

-- recv: some bytes, or none where the connection has ended or has an error.
pub data Received : Type 0 where
  bytes : Bytes → Received
  gone : Received

-- The lines that a chunk has made whole, in turn; the `n`-th line of the client gets `env n`.
unfoldable pub handle_lines : (ℕ → Env) → ℕ → ℕ → List Bytes → Server → Outcome Server
handle_lines env n fd [] s = returns s
handle_lines env n fd (line ∷ lines) s = do
  s' ← handle_line (env n) fd line s
  handle_lines env (suc n) fd lines s'

-- The client's thread behind its `n`-th line, with its buffer. A thread that finds running_ cleared
-- leaves the tables alone.
unfoldable pub handle_client :
    (ℕ → Env) → ℕ → ℕ → List (Bool × Received) → Bytes → Server → Outcome (Server × Standing)
unfolding handle_lines
handle_client env n fd [] buffer s = returns (s, waiting)
handle_client env n fd ((running, gone) ∷ rounds) buffer s =
    let removed = (do s' ← remove_client (env n) fd fd s; returns (s', ended)) in
    if running then removed else returns (s, ended)
handle_client env n fd ((running, bytes chunk) ∷ rounds) buffer s =
    let now = receive buffer chunk in
    let later = (do
      s' ← handle_lines env n fd now.0 s
      handle_client env (n + length now.0) fd rounds now.1 s') in
    if running then later else returns (s, ended)

-- receiveFromSocket: the message, and whether there was one; a message that is not received stays.
unfoldable pub receive_from_socket : Received → Bytes → Bytes × Bool
unfolding c_string
receive_from_socket gone message = (message, false)
receive_from_socket (bytes buffer) message = (c_string buffer, true)

-- closeClientSocket
unfoldable pub close_client_socket : Env → ℕ → ℕ → Server → Outcome Server
close_client_socket env caller fd s = remove_client env caller fd s
