-- ===== src/Server/Tests/Lines.antt =====
-- Lines, connections and their ends at concrete inputs.
use smallchat.Base.{
  ℕ, List, ◌∷◌, ◌⊎◌, ◌≡◌, refl, inr, true, false, none, some, [], ◌++◌, codes, arith, lookup,
  insert, nat_eq, bytes_eq,
}
use smallchat.Server.Command.Words
use smallchat.Server.Command.Words.{Word}
use smallchat.Server.Life.{Host, System, waits, shut, stop}
use smallchat.Server.Life.Mutex.{before, Scene, Steps, closing}
use smallchat.Server.Life.Mutex.Held.{IsDeadlock, ends_of}
use smallchat.Server.Registry.Ends.{reachable-stop}
use smallchat.Std.Decimal.{print}
use smallchat.Server.Line.{kind_of, handle_line, accept, Input, step}
use smallchat.Server.Registry.Others.{handle_line-Spares}
use smallchat.Server.Registry.Reach.{Reaches, starts, goes, reachable-IsConsistent}
use smallchat.Server.Registry.Tables.{IsConsistent}
use smallchat.Server.Relay.Ignored.{handle_line_ignored}
use smallchat.Server.State.{ClientInfo, Server, new_server, returns, left}
use smallchat.Server.Tests.Data.{env, ann, one_client}
use smallchat.Std.Stream.{next_word}

short_forms : Words.word_of (codes "/jr") ≡ Word.join_room
unfolding Words.word_of
short_forms = refl

two_words : next_word (codes "  /nick bob ") ≡ (codes "/nick", codes " bob ")
unfolding next_word
two_words = refl

-- A client comes, and says what its name is.
abbrev arrival : Server
arrival = accept 4 (codes "127.0.0.1") 5000 0 new_server

arrival-Reaches : Reaches arrival
unfolding new_server lookup step
arrival-Reaches =
    goes (Input.connection 4 (codes "127.0.0.1") 5000 0) (starts new_server refl refl) refl refl

reachable-IsConsistent_example : IsConsistent arrival
reachable-IsConsistent_example = reachable-IsConsistent arrival arrival-Reaches

handle_line_ignored_example :
    handle_line env 4 (codes "READ_RECEIPT|1_2|ann") one_client ≡ returns one_client
unfolding kind_of
handle_line_ignored_example =
    handle_line_ignored env 4 (codes "READ_RECEIPT|1_2|ann") one_client (ground arith)
      (inr (inr (inr refl)))

abbrev guest : ClientInfo
guest = record {
  socket_fd = 4;
  name = codes "Guest_" ++ print 4;
  password = [];
  ip_address = codes "127.0.0.1";
  port = 5000;
  connect_time = 0;
  is_logged_in = false;
  is_admin = false;
  is_muted = false;
  mute_end_time = 0;
  current_room = [];
}

guest_run : lookup 4 arrival.clients ≡ some guest
unfolding accept new_server lookup insert
guest_run = refl

abbrev busy : Host
busy = record {
  server = arrival;
  server_fd = some 3;
  port = 8888;
  running = true;
  accepting = true;
  disk = record { users_txt = none; history_txt = none };
}

abbrev quiet : System
quiet = record {
  opened = none;
  sets_option = true;
  parses = λ h. true;
  binds = true;
  listens = true;
  sets_non_blocking = true;
  now = 9;
  writes_users = true;
  writes_history = true;
}

-- Each thread has its own client to remove.
abbrev own_course : ℕ → List ℕ
own_course fd = fd ∷ []

reachable-stop_example :
    ((k : ℕ) × (stop quiet (ends_of own_course) busy ≡ waits k (shut quiet busy)))
    × ((t : Scene)
        → Steps (closing own_course arrival.client_threads) t
        → (t.stand ≡ before) ⊎ (IsDeadlock 4 t))
reachable-stop_example =
    reachable-stop quiet own_course 4 [] guest busy arrival-Reaches refl guest_run refl

handle_line-Spares_example :
    lookup 5 (left (handle_line env 4 (codes "/n eve") one_client)).clients
    ≡ lookup 5 one_client.clients
unfolding lookup
handle_line-Spares_example =
    handle_line-Spares env 4 ann one_client refl refl (codes "/n eve") 5 refl
