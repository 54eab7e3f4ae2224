-- ===== src/Web/Sessions/Sound.antt =====
-- src/web_server.cpp: where the entries of g_ws_sessions lead, as long as a connection logs in once.
use smallchat.Base.{
  ℕ, ◌≡◌, ◌≢◌, sym, ap, none, some, [], Bytes, arith, equal_iff, is_empty, if◌then◌else◌, lookup,
  insert, erase, lookup-insert, lookup-erase, bytes_eq, nat_eq, Bool-cases, inl, inr, eqb_iff,
}
use smallchat.Web.{Web, web_receive, web_closed, username_of}
use smallchat.Web.Sessions.{
  open_session, close_session, HasName, IsOrderly, Changes, keeps, enters, gives_up,
  web_receive-Changes, leave-tables,
}

-- Each entry of the sessions leads to an open connection that has the name of the entry.
unfoldable pub IsSound : Web → Type 0
unfolding HasName
IsSound w =
    (name : Bytes) (wsi : ℕ) → lookup name w.sessions ≡ some wsi → HasName wsi name w × (name ≢ [])

-- The runs in which a connection is opened when it is not there, and its logins are orderly.
pub data Runs (w : Web) : Web → Type 0 where
  here : Runs w w
  opens :
      {v : Web} (wsi : ℕ) → Runs w v → lookup wsi v.usernames ≡ none → Runs w (open_session wsi v)
  receives :
      {v u : Web} (wsi : ℕ) (message : Bytes)
      → Runs w v
      → IsOrderly wsi message v
      → web_receive wsi message v ≡ some u
      → Runs w u
  closes : {v : Web} (wsi : ℕ) → Runs w v → Runs w (close_session wsi v)

open_session-IsSound :
    (wsi : ℕ) (w : Web) → lookup wsi w.usernames ≡ none → IsSound w → IsSound (open_session wsi w)
unfolding IsSound open_session HasName
open_session-IsSound wsi w fresh h name other e =
    grind (arith, h name other e, lookup-insert wsi other [] w.usernames, eqb_iff)

module _ (wsi : ℕ) (w : Web) (h : IsSound w) where
  -- Without its name in the table, a connection has no session.
  no_session :
      (name : Bytes) (other : ℕ)
      → lookup name (
          if is_empty (username_of wsi w) then w.sessions else erase (username_of wsi w) w.sessions)
        ≡ some other
      → (lookup name w.sessions ≡ some other) × (other ≢ wsi)
  unfolding IsSound HasName
  no_session name other e =
      let own = username_of wsi w in
      elim (Bool-cases (is_empty own)) [
        | inl no_name ↦ ground (arith, e, no_name, h name other)
        | inr some_name ↦
            let stays : (lookup name w.sessions ≡ some other) × (own ≢ name) =
              ground (arith, e, some_name, lookup-erase own name w.sessions, equal_iff own name) in
            ground (arith, stays, h name other)
      ]

  enters-IsSound :
      (name get : Bytes) (other : ℕ)
      → username_of wsi w ≡ []
      → name ≢ []
      → lookup get (insert name wsi w.sessions) ≡ some other
      → (lookup other (insert wsi name w.usernames) ≡ some get) × (get ≢ [])
  unfolding IsSound HasName
  enters-IsSound name get other no_name is_name e = grind (
    arith,
    h get other,
    lookup-insert name get wsi w.sessions,
    lookup-insert wsi other name w.usernames,
    eqb_iff,
    equal_iff,
  )

  Changes-IsSound :
      (message : Bytes) (v : Web) → IsOrderly wsi message w → Changes wsi message w v → IsSound v
  unfolding IsSound HasName IsOrderly
  Changes-IsSound message v ok (keeps e f) get other found = rw f (h get other (rw (sym e) found))
  Changes-IsSound message v ok (enters name asked e f) get other found =
      let (no_name, (is_name, _)) = ok name asked in
      rw f (enters-IsSound name get other no_name is_name (rw (sym e) found))
  Changes-IsSound message v ok (gives_up e f) get other found =
      let (had, not_own) = no_session get other (rw (sym e) found) in
      let kept = h get other had in
      (
        rw f (grind (arith, lookup-insert wsi other [] w.usernames, eqb_iff wsi other, kept)),
        kept.1,
      )

  close_session-IsSound : IsSound (close_session wsi w)
  unfolding IsSound HasName close_session web_closed
  close_session-IsSound get other found =
      let (names, sessions) = leave-tables wsi w in
      let (had, not_own) = no_session get other (rw (sym sessions) found) in
      let kept = h get other had in
      (
        rw names (grind (arith, lookup-erase wsi other w.usernames, eqb_iff wsi other, kept)),
        kept.1,
      )

none-IsSound : (w : Web) → w.sessions ≡ [] → IsSound w
unfolding IsSound lookup
none-IsSound w none_yet name wsi e = grind (arith, ap (λ m. lookup name m) none_yet)

-- At a server that begins without sessions, each entry of the sessions leads to an open connection
-- that has the name of the entry, in every run in which a connection logs in once, and not for the
-- empty name or one that another session has.
pub Runs-IsSound : (start now : Web) → start.sessions ≡ [] → Runs start now → IsSound now
Runs-IsSound start now none_yet here = none-IsSound start none_yet
Runs-IsSound start now none_yet (opens {v} wsi run fresh) =
    open_session-IsSound wsi v fresh (Runs-IsSound start v none_yet run)
Runs-IsSound start now none_yet (receives {v} wsi message run ok e) =
    Changes-IsSound wsi v (Runs-IsSound start v none_yet run) message now ok
      (web_receive-Changes wsi v message now e)
Runs-IsSound start now none_yet (closes {v} wsi run) =
    close_session-IsSound wsi v (Runs-IsSound start v none_yet run)
