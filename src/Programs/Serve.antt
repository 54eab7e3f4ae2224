-- ===== src/Programs/Serve.antt =====
-- src/main_server.cpp: main with its loop, and signalHandler. What is printed is a list of texts, oldest
-- first; the lines of the callbacks are in Programs.
use mathlib.Core.List.{flatten}
use smallchat.Base.{
  append_assoc, ℕ, ◌≡◌, refl, sym, ap, Bool, true, false, not, ◌&&◌, eqb, map, Option, none, some,
  List, [], ◌∷◌, ◌++◌, Bytes, codes, arith, ltb, if◌then◌else◌, Option-cases, inl, inr,
}
use smallchat.Codec.Message.{newline}
use smallchat.Programs.{port_of}
use smallchat.Server.Life.{
  Disk, Host, System, new_host, rejected, started, terminates, start, listen_on, serve, give_up,
  Stopped, stopped, stop, set_message_callback, set_connect_callback, set_disconnect_callback,
}
use smallchat.Std.Decimal.{print}

-- main: an exception of std::stoi leaves it, it returns, std::terminate ends it, or its loop runs.
pub data ServerMain : Type 0 where
  aborts : ServerMain
  exits : ℕ → List Bytes → Host → ServerMain
  crashes : Host → ServerMain
  runs : List Bytes → Host → ServerMain

abbrev pub starting_text : ℕ → Bytes
starting_text port =
    codes "Starting SmallChat Server on port " ++ (print port ++ (codes "..." ++ (newline ∷ [])))

abbrev pub failed_text : Bytes
failed_text = codes "Failed to start server" ++ (newline ∷ [])

abbrev pub running_text : Bytes
running_text = codes "Server is running. Press Ctrl+C to stop." ++ (newline ∷ [])

-- The server of main, with its three callbacks.
unfoldable pub called_host : Disk → Host
called_host disk =
    let h = new_host disk in
    record h {
      server =
          set_disconnect_callback true
            (set_connect_callback true (set_message_callback true h.server));
    }

-- The start at a port; the address is the default of ChatServer::start.
unfoldable pub start_at : System → Disk → ℕ → ServerMain
unfolding called_host
start_at sys disk port = elim (start sys port (codes "0.0.0.0") (called_host disk)) [
  | rejected h ↦ exits 1 (starting_text port ∷ failed_text ∷ []) h
  | started h ↦ runs (starting_text port ∷ running_text ∷ []) h
  | terminates h ↦ crashes h
]

unfoldable pub main_server : System → Disk → Option Bytes → ServerMain
unfolding start_at
main_server sys disk arg = elim (port_of arg) [ none ↦ aborts | some port ↦ start_at sys disk port ]

-- The line of the loop, where there are clients.
unfoldable pub status_text : ℕ → List Bytes
status_text client_count =
    if ltb 0 client_count
    then (13 ∷ (codes "Online clients: " ++ (print client_count ++ codes "          "))) ∷ []
    else []

abbrev pub stopped_text : Bytes
stopped_text = newline ∷ (codes "Server stopped." ++ (newline ∷ []))

-- The loop of main, by what it finds in each round: isRunning, and getClientCount a second later. The
-- result has whether main has returned.
unfoldable pub status_loop : List (Bool × ℕ) → List Bytes × Bool
unfolding status_text
status_loop [] = ([], false)
status_loop ((running, client_count) ∷ rounds) =
    let later = status_loop rounds in
    if running then (status_text client_count ++ later.0, later.1) else (stopped_text ∷ [], true)

-- signalHandler, for SIGINT and SIGTERM or for another signal.
unfoldable pub signal_handler : Bool → System → (ℕ → Bool) → Host → List Bytes × Stopped
signal_handler ends_it sys ends h =
    if ends_it
    then ((newline ∷ (codes "Shutting down server..." ++ (newline ∷ []))) ∷ [], stop sys ends h)
    else ([], stopped h)

-- What start asks of the operating system.
abbrev pub is_ready : System → Bool
is_ready sys =
    (elim sys.opened [ none ↦ false | some fd ↦ true ])
    && (sys.sets_option && (sys.binds && (sys.listens && sys.sets_non_blocking)))

-- main runs a server that is running.
unfoldable pub stands : ServerMain → Bool
stands aborts = false
stands (exits code out h) = false
stands (crashes h) = false
stands (runs out h) = h.running

-- main has returned 1, and no server is running.
unfoldable pub has_failed : ServerMain → Bool
has_failed aborts = false
has_failed (exits code out h) = eqb code 1 && not h.running
has_failed (crashes h) = false
has_failed (runs out h) = false

module _ (sys : System) (disk : Disk) (port : ℕ) where
  start_at-is_ready :
      (stands (start_at sys disk port) ≡ is_ready sys)
      × (has_failed (start_at sys disk port) ≡ not (is_ready sys))
  unfolding start_at start listen_on serve give_up called_host new_host stands has_failed
      set_message_callback set_connect_callback set_disconnect_callback
  start_at-is_ready = elim (Option-cases sys.opened) [
    | inl none_open ↦ ground (arith, none_open)
    | inr (fd, open_fd) ↦ ground (arith, open_fd)
  ]

  -- With an argument that is a number, or without one, main_server runs its server if the operating
  -- system does all that start asks for, and else returns 1 while no server is running; std::terminate
  -- does not end it.
  pub main_server-is_ready :
      (arg : Option Bytes)
      → port_of arg ≡ some port
      → (stands (main_server sys disk arg) ≡ is_ready sys)
        × (has_failed (main_server sys disk arg) ≡ not (is_ready sys))
  unfolding main_server
  main_server-is_ready arg e = rw (e, main_server) start_at-is_ready

-- The loop of main ends when it finds that the server is not running, whatever came before: if it ran in
-- the rounds before, what it printed is their lines, one for each that had clients, and the last line.
pub status_loop-ends :
    (counts : List ℕ) (last : ℕ) (more : List (Bool × ℕ))
    → status_loop (map (λ n. (true, n)) counts ++ ((false, last) ∷ more))
      ≡ (flatten (map status_text counts) ++ (stopped_text ∷ []), true)
unfolding status_loop flatten
status_loop-ends [] last more = refl
status_loop-ends (n ∷ counts) last more = rw (status_loop-ends counts last more) (
    ap (λ out. (out, true))
      (sym (append_assoc (status_text n) (flatten (map status_text counts)) (stopped_text ∷ []))))
