-- ===== src/Server/Registry/Tables.antt =====
-- src/server.cpp: what clients_, name_to_socket_ and client_threads_ have to do with each other, and the kinds of
-- change to them.
use smallchat.Base.{
  ℕ, ◌≡◌, refl, sym, ap, ◌∙◌, true, Option, none, some, List, Bytes, arith, inl, inr, Option-cases,
  lookup, insert, erase, eqb_iff, equal_iff, nat_eq, bytes_eq, lookup-insert, lookup-erase,
}
use smallchat.Server.Registry.Same.{Same, broadcast-Same}
use smallchat.Server.Send.{rename, broadcast}
use smallchat.Server.Leave.{forget}
use smallchat.Server.State.{ClientInfo, Event, Server}

-- The name and the socket that a client has, at its place in `clients_`.
abbrev pub identity : Option ClientInfo → Option (Bytes × ℕ)
identity none = none
identity (some c) = some (c.name, c.socket_fd)

abbrev pub view : Server → ℕ → Option (Bytes × ℕ)
view s fd = identity (lookup fd s.clients)

-- Each entry of `name_to_socket_` leads to a client that has this very name, and each client
-- stands under its own socket and has a thread.
pub record IsConsistent (s : Server) : Type 0 where
  pub registered :
      (name : Bytes) (fd : ℕ) → lookup name s.name_to_socket ≡ some fd → view s fd ≡ some (name, fd)
  pub placed : (fd k : ℕ) (name : Bytes) → view s fd ≡ some (name, k) → k ≡ fd
  pub threaded :
      (fd k : ℕ) (name : Bytes)
      → view s fd ≡ some (name, k)
      → lookup fd s.client_threads ≡ some true

-- The same names, at the same places.
pub record Similar (s t : Server) : Type 0 where
  pub views : (fd : ℕ) → view t fd ≡ view s fd
  pub names : t.name_to_socket ≡ s.name_to_socket
  pub threads : t.client_threads ≡ s.client_threads

pub Similar-of_Same : {s t : Server} → Same s t → Similar s t
Similar-of_Same e = record { views = λ fd. rw e.clients; names = e.names; threads = e.threads }

pub Similar-trans : {s t u : Server} → Similar s t → Similar t u → Similar s u
Similar-trans a b = record {
  views = λ fd. b.views fd ∙ a.views fd;
  names = b.names ∙ a.names;
  threads = b.threads ∙ a.threads;
}

pub Similar-IsConsistent : {s t : Server} → Similar s t → IsConsistent s → IsConsistent t
Similar-IsConsistent e v = record {
  registered = λ name fd h. e.views fd ∙ v.registered name fd (rw e.names at h);
  placed = λ fd k name h. v.placed fd k name (sym (e.views fd) ∙ h);
  threaded = λ fd k name h. ap (lookup fd) e.threads ∙ v.threaded fd k name (sym (e.views fd) ∙ h);
}

pub Same-IsConsistent : {s t : Server} → Same s t → IsConsistent s → IsConsistent t
Same-IsConsistent e = Similar-IsConsistent (Similar-of_Same e)

module _ (clients : List (ℕ × ClientInfo)) (fd : ℕ) (c : ClientInfo) where
  put_view :
      (c' : ClientInfo) (j : ℕ)
      → lookup fd clients ≡ some c
      → c'.name ≡ c.name
      → c'.socket_fd ≡ c.socket_fd
      → identity (lookup j (insert fd c' clients)) ≡ identity (lookup j clients)
  put_view c' j h n k = ground (arith, lookup-insert fd j c' clients, eqb_iff fd j)

-- A client is changed in place, its name and socket kept.
pub put-Similar :
    (s : Server) (fd : ℕ) (c c' : ClientInfo)
    → lookup fd s.clients ≡ some c
    → c'.name ≡ c.name
    → c'.socket_fd ≡ c.socket_fd
    → Similar s (record s { clients = insert fd c' s.clients })
put-Similar s fd c c' h n k = record {
  views = λ j. put_view s.clients fd c c' j h n k;
  names = refl;
  threads = refl;
}

module _ (s : Server) (fd : ℕ) (c c' : ClientInfo) (name : Bytes)
    (here : lookup fd s.clients ≡ some c) (same_name : c'.name ≡ c.name)
    (same_socket : c'.socket_fd ≡ c.socket_fd) (v : IsConsistent s) where
  renamed_placed : (j k : ℕ) (m : Bytes) → view (rename fd c' name s) j ≡ some (m, k) → k ≡ j
  unfolding rename
  renamed_placed j k m e =
      let own = v.placed fd c.socket_fd c.name (rw here) in
      ground (
        arith,
        lookup-insert fd j (record c' { name = name }) s.clients,
        eqb_iff fd j,
        v.placed j k m,
      )

  renamed_registered :
      (m : Bytes) (j : ℕ)
      → lookup m (rename fd c' name s).name_to_socket ≡ some j
      → view (rename fd c' name s) j ≡ some (m, j)
  unfolding rename
  renamed_registered m j e =
      let own = v.placed fd c.socket_fd c.name (rw here) in
      ground (
        arith,
        lookup-insert fd j (record c' { name = name }) s.clients,
        eqb_iff fd j,
        lookup-insert name m fd (erase c'.name s.name_to_socket),
        equal_iff name m,
        lookup-erase c'.name m s.name_to_socket,
        equal_iff c'.name m,
        v.registered m j,
      )

  renamed_threaded :
      (j k : ℕ) (m : Bytes)
      → view (rename fd c' name s) j ≡ some (m, k)
      → lookup j (rename fd c' name s).client_threads ≡ some true
  unfolding rename
  renamed_threaded j k m e =
      let own = v.threaded fd c.socket_fd c.name (rw here) in
      ground (
        arith,
        lookup-insert fd j (record c' { name = name }) s.clients,
        eqb_iff fd j,
        v.threaded j k m,
      )

  -- The old entry goes, the new one comes, and the client gets the name.
  pub rename-IsConsistent : IsConsistent (rename fd c' name s)
  rename-IsConsistent = record {
    registered = renamed_registered;
    placed = renamed_placed;
    threaded = renamed_threaded;
  }

module _ (s : Server) (fd : ℕ) (c : ClientInfo) (here : lookup fd s.clients ≡ some c) where
  erased : Server
  erased = record s { name_to_socket = erase c.name s.name_to_socket; clients = erase fd s.clients }

  erased_placed : (v : IsConsistent s) (j k : ℕ) (m : Bytes) → view erased j ≡ some (m, k) → k ≡ j
  unfolding erased
  erased_placed v j k m e =
      ground (arith, lookup-erase fd j s.clients, eqb_iff fd j, v.placed j k m)

  erased_registered :
      (v : IsConsistent s) (m : Bytes) (j : ℕ)
      → lookup m erased.name_to_socket ≡ some j
      → view erased j ≡ some (m, j)
  unfolding erased
  erased_registered v m j e = ground (
    arith,
    lookup-erase fd j s.clients,
    eqb_iff fd j,
    lookup-erase c.name m s.name_to_socket,
    equal_iff c.name m,
    v.registered m j,
  )

  erased_threaded :
      (v : IsConsistent s) (j k : ℕ) (m : Bytes)
      → view erased j ≡ some (m, k)
      → lookup j erased.client_threads ≡ some true
  unfolding erased
  erased_threaded v j k m e =
      ground (arith, lookup-erase fd j s.clients, eqb_iff fd j, v.threaded j k m)

  erased-IsConsistent : IsConsistent s → IsConsistent erased
  erased-IsConsistent v = record {
    registered = erased_registered v;
    placed = erased_placed v;
    threaded = erased_threaded v;
  }

pub forget-IsConsistent : (s : Server) (fd : ℕ) → IsConsistent s → IsConsistent (forget fd s)
unfolding forget erased
forget-IsConsistent s fd v = elim (Option-cases (lookup fd s.clients)) [
  | inl e ↦ rw (e, forget) v
  | inr (c, e) ↦ rw (e, forget) (erased-IsConsistent s fd c e v)
]

-- A client that is forgotten is not there.
pub view-forget : (s : Server) (fd : ℕ) → view (forget fd s) fd ≡ none
unfolding forget
view-forget s fd = ground (arith, lookup-erase fd fd s.clients, eqb_iff fd fd)

-- Sending changes no table.
pub sent-IsConsistent :
    (s : Server) (out : List Event) → IsConsistent s → IsConsistent (record s { out = out })
sent-IsConsistent s out v = record {
  registered = v.registered;
  placed = v.placed;
  threaded = v.threaded;
}

pub broadcast-IsConsistent :
    (m : Bytes) (s : Server) → IsConsistent s → IsConsistent (broadcast m s)
broadcast-IsConsistent m s = Same-IsConsistent (broadcast-Same m s)
