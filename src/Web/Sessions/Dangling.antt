-- ===== src/Web/Sessions/Dangling.antt =====
-- src/web_server.cpp: a connection that logs in a second time.
use smallchat.Base.{
  ℕ, ◌≡◌, ◌≢◌, refl, ◌∙◌, none, some, [], ◌∷◌, ◌++◌, Bytes, arith, codes, Lacks, cut_at_sep,
  cut-Lacks, equal_iff, lookup, lookup-insert, lookup-erase, bytes_eq, nat_eq, eqb_iff,
}
use smallchat.Server.Send.{get_client_by_name}
use smallchat.Web.{
  Web, web_receive, web_closed, web_command, web_login, username_of, logged_in, up_to_space,
  substr_from, write, websocket_send_to,
}
use smallchat.Web.Sessions.{close_session, visit, leave-tables, logged_in-tables}

abbrev pub login_line : Bytes → Bytes
login_line name = codes "/login " ++ name

login_word : Lacks b' ' (codes "/login")
login_word = ground arith

up_to_space-login_line : (name : Bytes) → up_to_space (login_line name) ≡ codes "/login"
unfolding up_to_space
up_to_space-login_line name = grind (arith, cut_at_sep b' ' (codes "/login") name login_word)

substr_from-login_line : (name : Bytes) → substr_from 7 (login_line name) ≡ some name
unfolding substr_from
substr_from-login_line name = ground arith

up_to_space-Lacks : (name : Bytes) → Lacks b' ' name → up_to_space name ≡ name
unfolding up_to_space
up_to_space-Lacks name h = rw (cut-Lacks b' ' name h, up_to_space) refl

module _ (wsi : ℕ) (w : Web) where
  web_login-login_line :
      (name : Bytes)
      → Lacks b' ' name
      → get_client_by_name name w.server ≡ none
      → web_login wsi (login_line name) w ≡ some (logged_in wsi name w)
  unfolding web_login
  web_login-login_line name h free =
      grind (arith, substr_from-login_line name, up_to_space-Lacks name h, free)

  web_command-login_line :
      (message : Bytes)
      → up_to_space message ≡ codes "/login"
      → web_command wsi (up_to_space message) message w ≡ web_login wsi message w
  unfolding web_command
  web_command-login_line message e = rw e refl

  -- A login for a name without a space that no client of the chat server has.
  web_receive-login_line :
      (name : Bytes)
      → Lacks b' ' name
      → get_client_by_name name w.server ≡ none
      → web_receive wsi (login_line name) w ≡ some (logged_in wsi name w)
  unfolding web_receive
  web_receive-login_line name h free =
      web_command-login_line (login_line name) (up_to_space-login_line name)
      ∙ web_login-login_line name h free

  closed-tables :
      (u : Bytes) (told : Web)
      → lookup u told.sessions ≡ some wsi
      → username_of wsi told ≢ u
      → (lookup u (close_session wsi told).sessions ≡ some wsi)
        × (lookup wsi (close_session wsi told).usernames ≡ none)
  unfolding close_session web_closed
  closed-tables u told found not_own =
      let (names, sessions) = leave-tables wsi told in
      let own = username_of wsi told in
      (
        rw sessions
            (grind (arith, lookup-erase own u told.sessions, equal_iff own u, found, not_own)),
        rw names (grind (arith, lookup-erase wsi wsi told.usernames, eqb_iff wsi wsi)),
      )

  websocket_send_to-found :
      (u : Bytes) (x : Web)
      → lookup u x.sessions ≡ some wsi
      → (message : Bytes) → websocket_send_to u message x ≡ write wsi message x
  unfolding websocket_send_to
  websocket_send_to-found u x found message = rw (found, websocket_send_to) refl

  module _ (u name : Bytes) (found : lookup u w.sessions ≡ some wsi) (other : name ≢ u) where
    logged_in-keeps :
        (lookup u (logged_in wsi name w).sessions ≡ some wsi)
        × (username_of wsi (logged_in wsi name w) ≢ u)
    logged_in-keeps =
        let (sessions, names) = logged_in-tables wsi w name in
        (
          rw sessions (grind (arith, lookup-insert name u wsi w.sessions, equal_iff name u, found)),
          rw names (grind (arith, lookup-insert wsi wsi name w.usernames, eqb_iff wsi wsi, other)),
        )

    -- A connection that has a session logs in under a second name, without a space and free, and is
    -- then closed: nothing fails, the session of its first name still leads to it though it is gone,
    -- and what is sent to that name is written to it.
    pub relogin-dangles :
        Lacks b' ' name
        → get_client_by_name name w.server ≡ none
        → (x : Web) × ((visit wsi (login_line name ∷ []) w ≡ some x)
            × ((lookup u x.sessions ≡ some wsi)
                × ((lookup wsi x.usernames ≡ none)
                    × ((message : Bytes) → websocket_send_to u message x ≡ write wsi message x))))
    unfolding visit
    relogin-dangles h free =
        let told = logged_in wsi name w in
        let (still, gone) = closed-tables u told logged_in-keeps.0 logged_in-keeps.1 in
        (
          close_session wsi told,
          (
            rw (web_receive-login_line name h free) refl,
            (
              still,
              (gone, λ message. websocket_send_to-found u (close_session wsi told) still message),
            ),
          ),
        )
