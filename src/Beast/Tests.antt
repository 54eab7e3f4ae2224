-- ===== src/Beast/Tests.antt =====
-- The Beast sessions and the listener at concrete inputs.
use smallchat.Base.{◌≡◌, refl, true, false, some, [], ◌∷◌, codes, arith, lookup}
use smallchat.Beast.{Session, Hub, new_session, send_message, process_message}
use smallchat.Beast.Agree.{hub_rest, web_rest, process_message-web_receive}
use smallchat.Beast.Queue.{sends, after, messages, writings, after-drained}
use smallchat.Server.State.{new_server}
use smallchat.Web.{Web, web_receive}

abbrev two : Session
two = record {
  username = codes "ann";
  write_queue = codes "a" ∷ codes "b" ∷ [];
  written = codes "a" ∷ [];
  reading = true;
  closing = false;
}

after-drained_example :
    (after (writings 2) (after (sends (codes "a") ∷ sends (codes "b") ∷ []) new_session)).written
    ≡ messages (sends (codes "a") ∷ sends (codes "b") ∷ [])
unfolding after new_session send_message
after-drained_example = after-drained (sends (codes "a") ∷ sends (codes "b") ∷ []) 2 (omega arith)

abbrev hub : Hub
hub = record {
  server = record new_server { websocket_clients = (codes "ann", 1) ∷ [] };
  ws_sessions = (codes "ann", 1) ∷ [];
  alive = (1, two) ∷ [];
}

abbrev web : Web
web = record {
  server = new_server;
  sessions = (codes "ann", 7) ∷ [];
  usernames = (7, codes "ann") ∷ [];
  written = [];
}

process_message-web_receive_example :
    (hub_rest (process_message 1 (codes "/quit") hub)
      ≡ web_rest (web_receive 7 (codes "/quit") web))
    × ((v : Web)
        → web_receive 7 (codes "/quit") web ≡ some v
        → v.server.websocket_clients ≡ web.server.websocket_clients)
unfolding lookup
process_message-web_receive_example =
    process_message-web_receive 1 7 (codes "/quit") hub web refl refl
