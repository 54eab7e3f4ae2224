-- ===== src/Chat.antt =====
-- src/server.cpp, src/client.cpp and src/main_client.cpp together: a text on its way from one user to
-- the screen of another.
pub mod Screen
pub mod Sent
pub mod Muted
pub mod Said
pub mod Whispered
pub mod Tests
use smallchat.Base.{ℕ, ◌≡◌, Option, some, List, ◌∷◌, ◌++◌, map, Bytes, ◌>>=◌}
use smallchat.Client.Connection.{Connection, bytes, receive_thread}
use smallchat.Server.State.{Event, sends, Server}
use smallchat.Terminal.{Terminal, on_shown_all}

-- Between two states, the server has sent a frame to a socket.
abbrev pub Sends : ℕ → Bytes → Server → Server → Type 0
Sends fd frame s v =
    (before : List Event) × ((after : List Event) × (v.out
        ≡ s.out ++ (before ++ (sends fd frame ∷ after))))

-- What stands on the screen behind the chunks that the client has received.
abbrev pub screen_behind : ℕ → List Bytes → Connection → Terminal → Option (List Bytes)
screen_behind now chunks c t = do
  (shown, end) ← receive_thread (map (λ b. bytes now b) chunks) c
  some (on_shown_all shown t).shown
