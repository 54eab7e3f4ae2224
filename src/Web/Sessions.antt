-- ===== src/Web/Sessions.antt =====
-- src/web_server.cpp: g_ws_sessions and the SessionData of the open connections over time.
-- libwebsockets allocates the SessionData of a connection before LWS_CALLBACK_ESTABLISHED and frees it
-- behind LWS_CALLBACK_CLOSED.
pub mod Sound
pub mod Dangling
use smallchat.Base.{
  ℕ, zero, ◌≡◌, ◌≢◌, refl, sym, ap, subst, ◌∙◌, Bool, true, false, Option, none, some, List, [],
  ◌∷◌, ◌++◌, Bytes, codes, arith, equal, equal_iff, is_empty, if◌then◌else◌, lookup, insert, erase,
  lookup-insert, lookup-erase, bytes_eq, nat_eq, ◌>>=◌, Bool-cases, Option-cases, inl, inr, ◌⊎◌,
  eqb, eqb_iff, length, cut,
}
use smallchat.Server.Send.{get_client_by_name, get_clients}
use smallchat.Web.{
  Web, web_receive, web_closed, web_command, web_login, web_quit, web_users, web_text, logged_in,
  leave, username_of, write, broadcast_all, joined_names, starts_with_slash, substr_from,
  up_to_space, websocket_broadcast,
}

-- The connection is established: its SessionData is there, without a name.
unfoldable pub open_session : ℕ → Web → Web
open_session wsi w = record w { usernames = insert wsi [] w.usernames }

-- The connection is closed: the callback runs, and then its SessionData is freed.
unfoldable pub close_session : ℕ → Web → Web
close_session wsi w =
    let told = web_closed wsi w in record told { usernames = erase wsi told.usernames }

-- The connection is there, with this name, which is empty before the login.
unfoldable pub HasName : ℕ → Bytes → Web → Type 0
HasName wsi name w = lookup wsi w.usernames ≡ some name

-- What comes from a connection: messages, one after the other, and then the end; `none` is an
-- exception that leaves the callback.
unfoldable pub visit : ℕ → List Bytes → Web → Option Web
unfolding close_session
visit wsi [] w = some (close_session wsi w)
visit wsi (message ∷ messages) w = do v ← web_receive wsi message w; visit wsi messages v

-- The name that a message asks for, if it is a login.
unfoldable pub login_name : Bytes → Option Bytes
login_name message =
    if equal (up_to_space message) (codes "/login")
    then (do rest ← substr_from 7 message; some (up_to_space rest))
    else none

-- A login of a connection that has no name yet, for a name that is not empty and that no session has;
-- or no login.
unfoldable pub IsOrderly : ℕ → Bytes → Web → Type 0
IsOrderly wsi message w =
    (name : Bytes)
    → login_name message ≡ some name
    → (username_of wsi w ≡ []) × ((name ≢ []) × (lookup name w.sessions ≡ none))

-- What a message does to the two tables.
pub data Changes (wsi : ℕ) (message : Bytes) (w v : Web) : Type 0 where
  keeps : v.sessions ≡ w.sessions → v.usernames ≡ w.usernames → Changes wsi message w v
  enters :
      (name : Bytes)
      → login_name message ≡ some name
      → v.sessions ≡ insert name wsi w.sessions
      → v.usernames ≡ insert wsi name w.usernames
      → Changes wsi message w v
  gives_up :
      v.sessions ≡ (
        if is_empty (username_of wsi w) then w.sessions else erase (username_of wsi w) w.sessions)
      → v.usernames ≡ insert wsi [] w.usernames
      → Changes wsi message w v

module _ (message : Bytes) (w : Web) where
  broadcast_all-keeps :
      ((broadcast_all message w).sessions ≡ w.sessions)
      × ((broadcast_all message w).usernames ≡ w.usernames)
  unfolding broadcast_all websocket_broadcast
  broadcast_all-keeps = ground arith

module _ (wsi : ℕ) (w : Web) where
  pub leave-tables :
      ((leave wsi w).usernames ≡ w.usernames)
      × ((leave wsi w).sessions ≡ (
          if is_empty (username_of wsi w)
          then w.sessions
          else erase (username_of wsi w) w.sessions))
  unfolding leave
  leave-tables = grind (
    arith,
    broadcast_all-keeps (codes "[SYS] " ++ (username_of wsi w ++ codes " left the chat")) w,
  )

  web_quit-Changes : (message : Bytes) → Changes wsi message w (web_quit wsi w)
  unfolding web_quit
  web_quit-Changes message = gives_up (leave-tables.1) (ap (λ m. insert wsi [] m) leave-tables.0)

  logged_in-tables :
      (name : Bytes)
      → ((logged_in wsi name w).sessions ≡ insert name wsi w.sessions)
        × ((logged_in wsi name w).usernames ≡ insert wsi name w.usernames)
  unfolding logged_in
  logged_in-tables name =
      broadcast_all-keeps (codes "[SYS] " ++ (name ++ codes " joined the chat via WebSocket")) (
        write wsi (codes "[SYS] Welcome, " ++ (name ++ codes "! You are logged in.")) (record w {
          usernames = insert wsi name w.usernames;
          sessions = insert name wsi w.sessions;
        }))

  web_login-Changes :
      (message : Bytes) (v : Web)
      → equal (up_to_space message) (codes "/login") ≡ true
      → web_login wsi message w ≡ some v
      → Changes wsi message w v
  unfolding web_login login_name
  web_login-Changes message v is_login e = elim (Option-cases (substr_from 7 message)) [
    | inl short ↦ ground (arith, e, short)
    | inr (rest, long) ↦
        let name = up_to_space rest in
        elim (Option-cases (get_client_by_name name w.server)) [
          | inl free ↦
              let is_v : logged_in wsi name w ≡ v = ground (arith, e, long, free) in
              let asked : login_name message ≡ some name = ground (arith, is_login, long) in
              subst (λ x. Changes wsi message w x) is_v
                (enters name asked ((logged_in-tables name).0) ((logged_in-tables name).1))
          | inr (c, taken) ↦
              let is_v : write wsi (codes "[SYS] Error: Name already taken") w ≡ v =
                ground (arith, e, long, taken) in
              subst (λ x. Changes wsi message w x) is_v (keeps refl refl)
        ]
  ]

  said-Changes :
      (message text : Bytes) (v : Web) → broadcast_all text w ≡ v → Changes wsi message w v
  said-Changes message text v is_v =
      let kept = broadcast_all-keeps text w in
      subst (λ x. Changes wsi message w x) is_v (keeps kept.0 kept.1)

  told-Changes : (message text : Bytes) (v : Web) → write wsi text w ≡ v → Changes wsi message w v
  told-Changes message text v is_v = subst (λ x. Changes wsi message w x) is_v (keeps refl refl)

  web_command-Changes :
      (message : Bytes) (v : Web)
      → web_command wsi (up_to_space message) message w ≡ some v
      → Changes wsi message w v
  unfolding web_command web_users
  web_command-Changes message v e =
      let cmd = up_to_space message in
      elim (Bool-cases (equal cmd (codes "/login"))) [
        | inl login ↦ web_login-Changes message v login (ground (arith, e, login))
        | inr no_login ↦ elim (Bool-cases (equal cmd (codes "/quit"))) [
          | inl quit ↦
              let is_v : web_quit wsi w ≡ v = ground (arith, e, no_login, quit) in
              subst (λ x. Changes wsi message w x) is_v (web_quit-Changes message)
          | inr no_quit ↦ elim (Bool-cases (equal cmd (codes "/users"))) [
            | inl users ↦
                told-Changes message
                  (codes "[Users] Online: " ++ joined_names (get_clients w.server)) v
                  (ground (arith, e, no_login, no_quit, users))
            | inr no_users ↦
                said-Changes message message v (ground (arith, e, no_login, no_quit, no_users))
          ]
        ]
      ]

  web_text-Changes : (message : Bytes) → Changes wsi message w (web_text wsi message w)
  unfolding web_text
  web_text-Changes message = elim (Bool-cases (is_empty (username_of wsi w))) [
    | inl no_name ↦
        told-Changes message (codes "[SYS] Please login first using /login <name>")
          (web_text wsi message w) (ground (arith, no_name))
    | inr name ↦
        said-Changes message (codes "[" ++ (username_of wsi w ++ (codes "]: " ++ message)))
          (web_text wsi message w) (ground (arith, name))
  ]

  pub web_receive-Changes :
      (message : Bytes) (v : Web) → web_receive wsi message w ≡ some v → Changes wsi message w v
  unfolding web_receive
  web_receive-Changes message v e = elim (Bool-cases (starts_with_slash message)) [
    | inl slash ↦ web_command-Changes message v (ground (arith, e, slash))
    | inr text ↦
        let is_v : web_text wsi message w ≡ v = ground (arith, e, text) in
        subst (λ x. Changes wsi message w x) is_v (web_text-Changes message)
  ]
