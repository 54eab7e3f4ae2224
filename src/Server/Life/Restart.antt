-- ===== src/Server/Life/Restart.antt =====
-- src/server.cpp: stop and the next start.
use smallchat.Base.{
  ℕ, ◌≤◌, ◌≡◌, refl, ap, ◌∙◌, Bool, true, none, some, List, [], ◌∷◌, ◌++◌, Bytes, All, arith,
  lookup, nat_eq, length, length-map, equal, codes, ◌||◌,
}
use smallchat.Codec.Message.{ChatMessage, blank}
use smallchat.Codec.Message.RoundTrip.{received}
use smallchat.Codec.Message.Line.{IsOneLine}
use smallchat.Server.History.{
  add_message_to_history, room_history, or_empty, load_message_history, save_message_history,
}
use smallchat.Server.History.Bounds.{IsBounded}
use smallchat.Server.History.Files.{reloaded, load-save_history}
use smallchat.Server.History.Log.{latest, record_all, record_all-latest, latest_short}
use smallchat.Server.Life.{
  Disk, Host, System, new_host, rejected, started, serve, give_up, listen_on, start, stopped,
  without_threads, save, join_threads, stop, shut,
}
use smallchat.Server.State.{Server, new_server}
use smallchat.Server.Users.{load_users, save_users}
use smallchat.Server.Users.RoundTrip.{IsPrintable, IsMap, load_users-save_users}

-- A system in which every call of start succeeds.
pub record IsReady (sys : System) (host : Bytes) (fd : ℕ) : Type 0 where
  pub opens : sys.opened ≡ some fd
  pub options : sys.sets_option ≡ true
  pub address : equal host (codes "0.0.0.0") || sys.parses host ≡ true
  pub bound : sys.binds ≡ true
  pub listening : sys.listens ≡ true
  pub non_blocking : sys.sets_non_blocking ≡ true

pub start_ready :
    (sys : System) (port : ℕ) (host : Bytes) (fd : ℕ) (h : Host)
    → IsReady sys host fd
    → start sys port host h ≡ serve sys port (record h { server_fd = some fd })
unfolding start listen_on
start_ready sys port host fd h v =
    rw (v.opens, v.options, v.address, v.bound, v.listening, v.non_blocking) refl

-- A start that is refused leaves the server as it was: not running if it was not, with the tables,
-- the port and the files it had.
pub start-rejected :
    (sys : System) (port : ℕ) (host : Bytes) (h h' : Host)
    → start sys port host h ≡ rejected h'
    → (h'.running ≡ h.running)
      × ((h'.port ≡ h.port)
          × ((h'.disk ≡ h.disk) × (record h'.server { out = h.server.out } ≡ h.server)))
unfolding start listen_on serve give_up
start-rejected sys port host h h' e = ground arith

join_all :
    (ends : ℕ → Bool) (threads : List (ℕ × Bool))
    → All (λ t. ends t.0 ≡ true) threads
    → join_threads ends threads ≡ none
unfolding join_threads
join_all ends [] h = refl
join_all ends ((fd, j) ∷ threads) (e, h) = ground (arith, join_all ends threads h)

latest_all :
    (now : ℕ) (h : List ChatMessage)
    → length h ≤ 1000
    → latest 1000 ([] ++ reloaded now h) ≡ reloaded now h
latest_all now h b =
    latest_short 1000 (reloaded now h) (rw (length-map (λ m. received now m blank) h) b)

pub stop_idle :
    (sys : System) (ends : ℕ → Bool) (h : Host)
    → h.running ≡ true
    → All (λ t. ends t.0 ≡ true) h.server.client_threads
    → stop sys ends h ≡ stopped (without_threads (shut sys h))
unfolding stop
stop_idle sys ends h on idle = rw (on, join_all ends h.server.client_threads idle) refl

pub save_all :
    (sys : System) (h : Host)
    → sys.writes_users ≡ true
    → sys.writes_history ≡ true
    → (shut sys h).disk ≡ record {
      users_txt = some (save_users h.server.users);
      history_txt = some (save_message_history h.server);
    }
unfolding shut save
save_all sys h u m = rw (u, m) refl

pub load_saved :
    (now : ℕ) (s t : Server)
    → All IsOneLine s.message_history
    → IsBounded t
    → (load_message_history now (some (save_message_history s)) t).0.message_history
      ≡ latest 1000 (t.message_history ++ reloaded now s.message_history)
load_saved now s t lines bounded =
    ap (λ r. r.0.message_history) (load-save_history now s t lines)
    ∙ (record_all-latest (reloaded now s.message_history) t [] bounded).0

record_all-users : (ms : List ChatMessage) (s : Server) → (record_all ms s).users ≡ s.users
unfolding record_all add_message_to_history
record_all-users [] s = refl
record_all-users (m ∷ ms) s = record_all-users ms (add_message_to_history m s) ∙ ground arith

load_saved-users :
    (now : ℕ) (s t : Server)
    → All IsOneLine s.message_history
    → (load_message_history now (some (save_message_history s)) t).0.users ≡ t.users
load_saved-users now s t lines =
    ap (λ r. r.0.users) (load-save_history now s t lines)
    ∙ record_all-users (reloaded now s.message_history) t

new-IsBounded : (users : List (Bytes × Bytes)) → IsBounded (record new_server { users = users })
unfolding new_server room_history or_empty lookup
new-IsBounded users = record { global = omega arith; rooms = λ room. omega arith }

serve_new :
    (sys : System) (port fd : ℕ) (disk : Disk)
    → (h' : Host) × ((serve sys port (record (new_host disk) { server_fd = some fd }) ≡ started h')
        × ((h'.server
              ≡ (load_message_history sys.now disk.history_txt
                  (record new_server { users = (load_users disk.users_txt []).0 })).0)
            × (h'.running ≡ true)))
unfolding serve new_host new_server
serve_new sys port fd disk = (_, (refl, (refl, refl)))

-- A server that is stopped, with all its threads at their end and both files written, and started again
-- as a new process, has the same users and the same messages as before, these with the fields that
-- travel and the time of the start, if at most 1000 messages are kept, what is written as it is holds
-- no separator of the files, and the names of the users are different.
pub stop-start :
    (sys sys' : System) (ends : ℕ → Bool) (h : Host) (port fd : ℕ) (host : Bytes)
    → h.running ≡ true
    → All (λ t. ends t.0 ≡ true) h.server.client_threads
    → sys.writes_users ≡ true
    → sys.writes_history ≡ true
    → All IsPrintable h.server.users
    → IsMap h.server.users
    → All IsOneLine h.server.message_history
    → length h.server.message_history ≤ 1000
    → IsReady sys' host fd
    → (stop sys ends h ≡ stopped (without_threads (shut sys h)))
      × ((again : Host) × ((start sys' port host (new_host (shut sys h).disk) ≡ started again)
            × ((again.running ≡ true)
                × ((again.server.users ≡ h.server.users)
                    × (again.server.message_history
                        ≡ reloaded sys'.now h.server.message_history)))))
unfolding new_server
stop-start sys sys' ends h port fd host on idle wu wh printable is_map lines bound ready =
    let disk = (shut sys h).disk in
    let saved = save_all sys h wu wh in
    let (again, (e, (same, up))) = serve_new sys' port fd disk in
    let users = load_users-save_users h.server.users printable is_map in
    let fresh = record new_server { users = h.server.users } in
    let loaded : again.server
        ≡ (load_message_history sys'.now (some (save_message_history h.server)) fresh).0 =
      same
      ∙ ap
          (λ d.
            (load_message_history sys'.now d.history_txt
              (record new_server { users = (load_users d.users_txt []).0 })).0)
          saved
      ∙ ap
          (λ u.
            (load_message_history sys'.now (some (save_message_history h.server))
              (record new_server { users = u.0 })).0)
          users in
    (
      stop_idle sys ends h on idle,
      (
        again,
        (
          start_ready sys' port host fd (new_host disk) ready ∙ e,
          (
            up,
            (
              ap (λ s. s.users) loaded ∙ load_saved-users sys'.now h.server fresh lines,
              ap (λ s. s.message_history) loaded
                  ∙ load_saved sys'.now h.server fresh lines (new-IsBounded h.server.users)
                  ∙ latest_all sys'.now h.server.message_history bound,
            ),
          ),
        ),
      ),
    )
