-- ===== src/Web/Tests.antt =====
-- The web callback at a concrete input.
use smallchat.Base.{
  ◌≡◌, ◌≢◌, ◌↔◌, true, none, some, refl, arith, [], ◌∷◌, Bytes, codes, lookup, insert, cut,
  bytes_eq, nat_eq,
}
use smallchat.Server.State.{new_server}
use smallchat.Server.Send.{get_client_by_name}
use smallchat.Web.{
  Web, web_receive, web_command, web_login, substr_from, up_to_space, logged_in, websocket_send_to,
  write,
}
use smallchat.Web.Sessions.{visit, open_session, IsOrderly, login_name}
use smallchat.Web.Sessions.Sound.{IsSound, Runs-IsSound, opens, receives, here as run_here}
use smallchat.Web.Sessions.Dangling.{login_line, relogin-dangles}
use smallchat.Web.Service.{
  Service, joining, returned, new_service, start, serves, cancels, Steps, here, then_step,
}
use smallchat.Web.Service.Stop.{stop-waits_for_run}
use smallchat.Web.Total.{web_receive-throws}

abbrev empty_web : Web
empty_web = record { server = new_server; sessions = []; usernames = []; written = [] }

web_receive-throws_example :
    (web_receive 1 (codes "/login bob") empty_web ≡ none) ↔ (codes "/login bob" ≡ codes "/login")
web_receive-throws_example = web_receive-throws 1 empty_web (codes "/login bob")

abbrev up_service : Service
up_service = (start true new_server new_service).0.1

-- run has made a round, and stop has cancelled it.
abbrev stopping : Service
stopping = record up_service { place = joining }

begun : Steps up_service stopping
unfolding start new_service
begun = then_step (then_step here (serves refl refl)) (cancels refl refl)

stop-waits_for_run_example : (stopping.place ≢ returned) × (stopping.serving ≡ true)
stop-waits_for_run_example = stop-waits_for_run new_server stopping begun

-- One connection that has logged in as bob.
abbrev bob_web : Web
bob_web = record {
  server = new_server;
  sessions = (codes "bob", 1) ∷ [];
  usernames = (1, codes "bob") ∷ [];
  written = [];
}

relogin-dangles_example :
    (x : Web) × ((visit 1 (login_line (codes "eve") ∷ []) bob_web ≡ some x)
      × ((lookup (codes "bob") x.sessions ≡ some 1)
          × ((lookup 1 x.usernames ≡ none)
              × ((message : Bytes)
                  → websocket_send_to (codes "bob") message x ≡ write 1 message x))))
unfolding lookup get_client_by_name new_server
relogin-dangles_example =
    relogin-dangles 1 bob_web (codes "bob") (codes "eve") refl (ground arith) (ground arith) refl

-- A connection comes, logs in as bob, and goes.
abbrev connected : Web
connected = open_session 1 empty_web

abbrev named : Web
named = logged_in 1 (codes "bob") connected

named_run : web_receive 1 (login_line (codes "bob")) connected ≡ some named
unfolding web_receive web_command web_login substr_from up_to_space cut open_session
    get_client_by_name lookup smallchat.Web.broadcast_all new_server
named_run = refl

bob-IsOrderly : IsOrderly 1 (login_line (codes "bob")) connected
unfolding IsOrderly login_name open_session lookup insert up_to_space cut substr_from
bob-IsOrderly name e = ground (arith, e)

Runs-IsSound_example : IsSound named
unfolding lookup
Runs-IsSound_example =
    Runs-IsSound empty_web named refl
      (receives 1 (login_line (codes "bob")) (opens 1 run_here refl) bob-IsOrderly named_run)
