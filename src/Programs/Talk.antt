-- ===== src/Programs/Talk.antt =====
-- src/main_client.cpp: main, up to its loop, which is in Terminal. What is printed is a list of texts,
-- oldest first.
use smallchat.Base.{
  ℕ, ◌≡◌, Bool, true, false, not, ◌&&◌, eqb, Option, none, some, List, [], ◌∷◌, ◌++◌, Bytes, codes,
  arith, if◌then◌else◌, Option-cases, inl, inr,
}
use smallchat.Client.Connection.{
  Connection, Network, done, terminates, connect, connect_socket, close_socket, start,
  new_connection,
}
use smallchat.Codec.Message.{newline}
use smallchat.Programs.{port_of}
use smallchat.Std.Decimal
use smallchat.Terminal.{Terminal}

-- main: an exception of std::stoi leaves it, it returns, std::terminate ends it, or its loop begins.
pub data ClientMain : Type 0 where
  aborts : ClientMain
  exits : ℕ → List Bytes → Connection → ClientMain
  crashes : Connection → ClientMain
  talks : Connection → Terminal → ClientMain

-- argv behind the name of the program: the host, and the port.
unfoldable pub host_of : List Bytes → Bytes
host_of [] = codes "127.0.0.1"
host_of (host ∷ args) = host

unfoldable pub port_arg : List Bytes → Option Bytes
port_arg [] = none
port_arg (host ∷ []) = none
port_arg (host ∷ port ∷ args) = some port

-- g_client with its five callbacks.
unfoldable pub called_connection : Connection
unfolding new_connection
called_connection = record new_connection {
  client = record {
    connected = false;
    running = false;
    message_callback = true;
    system_callback = true;
    userlist_callback = true;
    error_callback = true;
    success_callback = true;
  };
}

abbrev pub connecting_text : Bytes → ℕ → Bytes
connecting_text host port =
    codes "Connecting to "
    ++ (host
        ++ (codes ":" ++ (smallchat.Std.Decimal.print port ++ (codes "..." ++ (newline ∷ [])))))

abbrev pub failed_text : Bytes
failed_text = codes "Failed to connect to server" ++ (newline ∷ [])

-- The terminal at the start of the loop, behind the welcome.
unfoldable pub welcome : Bytes → Connection → Terminal
welcome connecting c = record {
  client = c.client;
  logged_in = false;
  quit = false;
  current_user = [];
  sent = [];
  shown =
      connecting
      ∷ (codes "Connected!" ++ (newline ∷ []))
      ∷ (newline ∷ (codes "Welcome to SmallChat! Please login first." ++ (newline ∷ [])))
      ∷ (codes "Use: /login <name> or /register <name> <password>" ++ (newline ∷ []))
      ∷ codes "> "
      ∷ [];
}

unfoldable pub begin : Bytes → Connection → ClientMain
unfolding welcome
begin connecting c = elim (start c) [
  | done up ↦ talks up (welcome connecting up)
  | terminates up ↦ crashes up
]

unfoldable pub connect_at : Network → Bytes → ℕ → ClientMain
unfolding begin called_connection
connect_at net host port =
    let (c, connected) = connect net host port called_connection in
    if connected
    then begin (connecting_text host port) c
    else exits 1 (connecting_text host port ∷ failed_text ∷ []) c

unfoldable pub main_client : Network → List Bytes → ClientMain
unfolding connect_at host_of port_arg
main_client net args = elim (port_of (port_arg args)) [
  | none ↦ aborts
  | some port ↦ connect_at net (host_of args) port
]

-- What connect asks of the operating system.
abbrev pub is_reachable : Network → Bytes → Bool
is_reachable net host =
    (elim net.opened [ none ↦ false | some fd ↦ true ]) && (net.parses host && net.connects)

-- main is in its loop, with a client that is connected and runs, and nobody logged in.
unfoldable pub is_talking : ClientMain → Bool
is_talking aborts = false
is_talking (exits code out c) = false
is_talking (crashes c) = false
is_talking (talks c t) =
    c.client.connected
    && (c.client.running && (t.client.connected && (not t.logged_in && not t.quit)))

-- main has returned 1, without a connection.
unfoldable pub has_failed : ClientMain → Bool
has_failed aborts = false
has_failed (exits code out c) = eqb code 1 && not c.client.connected
has_failed (crashes c) = false
has_failed (talks c t) = false

module _ (net : Network) where
  connect_at-is_reachable :
      (host : Bytes) (port : ℕ)
      → (is_talking (connect_at net host port) ≡ is_reachable net host)
        × (has_failed (connect_at net host port) ≡ not (is_reachable net host))
  unfolding connect_at begin welcome connect connect_socket start called_connection new_connection
      is_talking has_failed close_socket
  connect_at-is_reachable host port = elim (Option-cases net.opened) [
    | inl none_open ↦ ground (arith, none_open)
    | inr (fd, open_fd) ↦ ground (arith, open_fd)
  ]

  -- With a port that is a number, or without one, main_client comes to its loop, connected, running and
  -- not logged in, if the operating system makes the connection to the host of its arguments, and else
  -- returns 1 without a connection; std::terminate does not end it before its loop.
  pub main_client-is_reachable :
      (args : List Bytes) (port : ℕ)
      → port_of (port_arg args) ≡ some port
      → (is_talking (main_client net args) ≡ is_reachable net (host_of args))
        × (has_failed (main_client net args) ≡ not (is_reachable net (host_of args)))
  unfolding main_client
  main_client-is_reachable args port e =
      rw (e, main_client) (connect_at-is_reachable (host_of args) port)
