-- ===== src/Server/Tests/Starts.antt =====
-- The log of messages, start and stop at concrete inputs.
use smallchat.Base.{
  ◌≡◌, refl, true, false, none, some, [], ◌∷◌, ◌++◌, codes, arith, lookup, nat_eq, bytes_eq,
}
use smallchat.Codec.Message.{ChatMessage, blank}
use smallchat.Codec.Message.Line.{IsOneLine}
use smallchat.Server.History.{room_history, or_empty}
use smallchat.Server.History.Bounds.{IsBounded}
use smallchat.Server.History.Files.{reloaded}
use smallchat.Server.History.Log.{latest, record_all, to_room, record_all-latest}
use smallchat.Server.Life.{
  Host, System, new_host, start, started, stop, stopped, shut, without_threads,
}
use smallchat.Server.Life.Restart.{IsReady, stop-start}
use smallchat.Server.State.{Server}
use smallchat.Server.Tests.Data.{one_client}

one_client-IsBounded : IsBounded one_client
unfolding room_history or_empty lookup
one_client-IsBounded = record { global = omega arith; rooms = λ room. omega arith }

record_all-latest_example :
    ((record_all (blank ∷ blank ∷ []) one_client).message_history
      ≡ latest 1000 (one_client.message_history ++ (blank ∷ blank ∷ [])))
    × (room_history (codes "hall") (record_all (blank ∷ blank ∷ []) one_client)
        ≡ latest 1000
            (room_history (codes "hall") one_client ++ to_room (codes "hall") (blank ∷ blank ∷ [])))
record_all-latest_example =
    record_all-latest (blank ∷ blank ∷ []) one_client (codes "hall") one_client-IsBounded

abbrev hello : ChatMessage
hello = record blank { sender = codes "ann"; content = codes "hello"; message_id = codes "1_2" }

hello-IsOneLine : IsOneLine hello
hello-IsOneLine = record {
  sendable = record {
    sender_plain = ground arith;
    receiver_plain = tt;
    type_fits = ground arith;
    content_bytes = ground arith;
  };
  sender_line = ground arith;
  receiver_line = tt;
  id_line = ground arith;
}

abbrev talked : Server
talked = record one_client { message_history = hello ∷ [] }

talked-IsBounded : IsBounded talked
unfolding room_history or_empty lookup
talked-IsBounded = record { global = omega arith; rooms = λ room. omega arith }

abbrev host : Host
host = record {
  server = talked;
  server_fd = some 3;
  port = 8888;
  running = true;
  accepting = true;
  disk = record { users_txt = none; history_txt = none };
}

abbrev system : System
system = record {
  opened = some 3;
  sets_option = true;
  parses = λ h. false;
  binds = true;
  listens = true;
  sets_non_blocking = true;
  now = 9;
  writes_users = true;
  writes_history = true;
}

system-IsReady : IsReady system (codes "0.0.0.0") 3
system-IsReady = record {
  opens = refl;
  options = refl;
  address = refl;
  bound = refl;
  listening = refl;
  non_blocking = refl;
}

stop-start_example :
    (stop system (λ fd. true) host ≡ stopped (without_threads (shut system host)))
    × ((again : Host) × ((start system 8888 (codes "0.0.0.0") (new_host (shut system host).disk)
            ≡ started again)
          × ((again.running ≡ true)
              × ((again.server.users ≡ host.server.users)
                  × (again.server.message_history ≡ reloaded 9 (hello ∷ []))))))
unfolding lookup
stop-start_example =
    stop-start system system (λ fd. true) host 8888 3 (codes "0.0.0.0") refl (refl, tt) refl refl
      (ground arith) (refl, tt) (hello-IsOneLine, tt) (omega arith) system-IsReady
