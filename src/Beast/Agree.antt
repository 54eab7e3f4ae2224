-- ===== src/Beast/Agree.antt =====
-- src/web_server_impl.cpp and src/web_server.cpp: what a message of a web user does to the chat server.
use smallchat.Base.{
  ℕ, ◌≡◌, refl, ap, ◌∙◌, sym, Bool, true, false, Option, none, some, List, [], ◌∷◌, ◌++◌, Bytes,
  codes, arith, equal, is_empty, if◌then◌else◌, nat_eq, ◌>>=◌,
}
use smallchat.Beast.{
  Hub, Session, send_message, send_to_session, broadcast_loop, websocket_broadcast, change, enter,
  forget_name, leave, process_message, beast_command, beast_login, beast_quit, beast_users,
  beast_text, starts_with_slash, set_username, close_session,
}
use smallchat.Beast
use smallchat.Server.Send.{broadcast, get_client_by_name}
use smallchat.Server.State.{Server}
use smallchat.Server.WebClients.{add_web_socket_client, remove_web_socket_client}
use smallchat.Web.{
  Web, substr_from, up_to_space, web_receive, web_command, web_login, web_quit, web_users, web_text,
}
use smallchat.Web

-- What the chat server is told, by the name of the sender and the message.
unfoldable served : Bytes → Bytes → Server → Option Server
served username message s =
    let login = (do
      rest ← substr_from 7 message
      some (
          let name = up_to_space rest in
          elim (get_client_by_name name s) [
            | some _ ↦ s
            | none ↦
                broadcast (codes "[SYS] " ++ (name ++ codes " joined the chat via WebSocket")) s
          ])) in
    let left = broadcast (codes "[SYS] " ++ (username ++ codes " left the chat")) s in
    let text = broadcast (codes "[" ++ (username ++ (codes "]: " ++ message))) s in
    let cmd = up_to_space message in
    if starts_with_slash message
    then if equal cmd (codes "/login")
      then login
      else if equal cmd (codes "/quit")
      then some (if is_empty username then s else left)
      else if equal cmd (codes "/users")
      then some s
      else some (broadcast message s)
    else some (if is_empty username then s else text)

-- The chat server but for websocket_clients_, which only web_server_impl.cpp fills.
abbrev pub without_table : Server → Server
without_table s = record s { websocket_clients = [] }

abbrev pub hub_rest : Option Hub → Option Server
hub_rest none = none
hub_rest (some h) = some (without_table h.server)

abbrev pub web_rest : Option Web → Option Server
web_rest none = none
web_rest (some w) = some (without_table w.server)

broadcast-without_table :
    (m : Bytes) (s : Server) → without_table (broadcast m s) ≡ broadcast m (without_table s)
unfolding broadcast
broadcast-without_table m s = ground arith

get_client_by_name-without_table :
    (name : Bytes) (s : Server)
    → get_client_by_name name (without_table s) ≡ get_client_by_name name s
unfolding get_client_by_name
get_client_by_name-without_table name s = refl

broadcast-websocket_clients :
    (m : Bytes) (s : Server) → (broadcast m s).websocket_clients ≡ s.websocket_clients
unfolding broadcast
broadcast-websocket_clients m s = ground arith

send_to_session-server : (id : ℕ) (m : Bytes) (h : Hub) → (send_to_session id m h).server ≡ h.server
unfolding send_to_session
send_to_session-server id m h = ground arith

change-server : (id : ℕ) (f : Session → Session) (h : Hub) → (change id f h).server ≡ h.server
change-server id f h = ground arith

broadcast_loop-server :
    (m : Bytes) (l : List (Bytes × ℕ)) (h : Hub) → (broadcast_loop m l h).1.server ≡ h.server
unfolding broadcast_loop
broadcast_loop-server m [] h = refl
broadcast_loop-server m ((n, id) ∷ l) h =
    broadcast_loop-server m l (send_to_session id m h) ∙ send_to_session-server id m h

if_server :
    (b : Bool) (x y : Hub) (s : Server)
    → x.server ≡ s
    → y.server ≡ s
    → (if b then x else y).server ≡ s
if_server true x y s e f = e
if_server false x y s e f = f

if_both_server :
    (b : Bool) (x y : Hub) (s t : Server)
    → without_table x.server ≡ s
    → without_table y.server ≡ t
    → without_table (if b then x else y).server ≡ (if b then s else t)
if_both_server true x y s t e f = e
if_both_server false x y s t e f = f

hub_broadcast :
    (m : Bytes) (h : Hub) → (smallchat.Beast.broadcast_all m h).server ≡ broadcast m h.server
unfolding smallchat.Beast.broadcast_all websocket_broadcast
hub_broadcast m h =
    if_server h.server.web_broadcast_callback _ _ (broadcast m h.server)
      (broadcast_loop-server m h.ws_sessions _) refl

hub_rest_broadcast :
    (m : Bytes) (h : Hub)
    → without_table (smallchat.Beast.broadcast_all m h).server
      ≡ broadcast m (without_table h.server)
hub_rest_broadcast m h = ap without_table (hub_broadcast m h) ∙ broadcast-without_table m h.server

web_broadcast :
    (m : Bytes) (w : Web) → (smallchat.Web.broadcast_all m w).server ≡ broadcast m w.server
unfolding smallchat.Web.broadcast_all smallchat.Web.websocket_broadcast
web_broadcast m w = ground arith

module _ (id : ℕ) (message : Bytes) (h : Hub) where
  abbrev hub_name : Bytes
  hub_name = smallchat.Beast.username_of id h

  hub_login :
      (username : Bytes)
      → without_table (smallchat.Beast.logged_in id username h).server
        ≡ broadcast
            (codes "[SYS] " ++ (username ++ codes " joined the chat via WebSocket"))
            (without_table h.server)
  unfolding smallchat.Beast.logged_in enter add_web_socket_client
  hub_login username =
      let joined = codes "[SYS] " ++ (username ++ codes " joined the chat via WebSocket") in
      let welcome = codes "[SYS] Welcome, " ++ (username ++ codes "! You are logged in.") in
      hub_rest_broadcast joined (send_to_session id welcome (enter id username h))
      ∙ ap (λ s. broadcast joined (without_table s))
          (send_to_session-server id welcome (enter id username h)
            ∙ change-server id (set_username username) _)

  hub_leave : without_table (smallchat.Beast.leave id h).server ≡ (
      if is_empty hub_name
      then without_table h.server
      else broadcast
          (codes "[SYS] " ++ (hub_name ++ codes " left the chat"))
          (without_table h.server))
  unfolding smallchat.Beast.leave forget_name remove_web_socket_client
  hub_leave = if_both_server (is_empty hub_name) h _ (without_table h.server) _ refl (
      hub_rest_broadcast (codes "[SYS] " ++ (hub_name ++ codes " left the chat"))
        (forget_name hub_name h))

  hub_quit :
      without_table (beast_quit id h).server ≡ without_table (smallchat.Beast.leave id h).server
  unfolding beast_quit
  hub_quit = ap without_table (change-server id close_session (smallchat.Beast.leave id h))

  process_message-served :
      hub_rest (process_message id message h) ≡ served hub_name message (without_table h.server)
  unfolding process_message beast_command beast_text beast_login beast_users served
  process_message-served = grind (
    arith, hub_rest_broadcast, send_to_session-server, hub_login, hub_leave, hub_quit,
    get_client_by_name-without_table,
  )

module _ (wsi : ℕ) (message : Bytes) (w : Web) where
  abbrev web_name : Bytes
  web_name = smallchat.Web.username_of wsi w

  web_leave : (smallchat.Web.leave wsi w).server ≡ (
      if is_empty web_name
      then w.server
      else broadcast (codes "[SYS] " ++ (web_name ++ codes " left the chat")) w.server)
  unfolding smallchat.Web.leave
  web_leave = grind (arith, web_broadcast)

  web_receive-served :
      web_rest (web_receive wsi message w) ≡ served web_name message (without_table w.server)
  unfolding web_receive web_command web_text web_login web_quit web_users smallchat.Web.logged_in
      served
  web_receive-served =
      grind
        (arith, web_broadcast, web_leave, broadcast-without_table, get_client_by_name-without_table)

  web_receive-websocket_clients :
      (v : Web)
      → web_receive wsi message w ≡ some v
      → v.server.websocket_clients ≡ w.server.websocket_clients
  unfolding web_receive web_command web_text web_login web_quit web_users smallchat.Web.logged_in
  web_receive-websocket_clients v e =
      grind (arith, e, web_broadcast, web_leave, broadcast-websocket_clients)

-- The two web servers do the same to the chat server with a message of a web user, exceptions included,
-- but for the table websocket_clients_, which web_server.cpp leaves as it is, if the user has the same
-- name at both and the chat servers differ at most in that table.
pub process_message-web_receive :
    (id wsi : ℕ) (message : Bytes) (h : Hub) (w : Web)
    → without_table h.server ≡ without_table w.server
    → smallchat.Beast.username_of id h ≡ smallchat.Web.username_of wsi w
    → (hub_rest (process_message id message h) ≡ web_rest (web_receive wsi message w))
      × ((v : Web)
          → web_receive wsi message w ≡ some v
          → v.server.websocket_clients ≡ w.server.websocket_clients)
process_message-web_receive id wsi message h w same name = (
  process_message-served id message h
      ∙ ap (λ n. served n message (without_table h.server)) name
      ∙ ap (served (smallchat.Web.username_of wsi w) message) same
      ∙ sym (web_receive-served wsi message w),
  web_receive-websocket_clients wsi message w,
)
