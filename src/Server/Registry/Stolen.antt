-- ===== src/Server/Registry/Stolen.antt =====
-- src/server.cpp: /nick of a client whose name another one has.
use smallchat.Base.{
  ℕ, ◌≡◌, ◌≢◌, false, none, some, Bytes, arith, eqb_iff, equal_iff, is_empty, lookup, insert,
  lookup-insert, erase, lookup-erase, nat_eq, bytes_eq,
}
use smallchat.Server.Account.{nick}
use smallchat.Server.Registry.Same.{broadcast-Same}
use smallchat.Server.Send.{get_client_by_name, rename}
use smallchat.Server.State.{ClientInfo, Server}
use smallchat.Std.Stream.{next_word}

module _ (fd other : ℕ) (c d : ClientInfo) (args : Bytes) (s : Server) where
  nick-renamed :
      is_empty (next_word args).0 ≡ false
      → get_client_by_name (next_word args).0 s ≡ none
      → ((nick fd c args s).name_to_socket
          ≡ insert (next_word args).0 fd (erase c.name s.name_to_socket))
        × ((nick fd c args s).clients
            ≡ insert fd (record c { name = (next_word args).0 }) s.clients)
  unfolding nick rename
  nick-renamed given free = grind (arith, broadcast-Same)

  -- A client with the name under which the server finds another one, as a guest has it whose name was
  -- taken in a login, takes a new name: the other client is there as before, and nobody finds it by its
  -- name any more.
  pub nick-get_client_by_name :
      lookup c.name s.name_to_socket ≡ some other
      → lookup other s.clients ≡ some d
      → other ≢ fd
      → is_empty (next_word args).0 ≡ false
      → (next_word args).0 ≢ c.name
      → get_client_by_name (next_word args).0 s ≡ none
      → (get_client_by_name c.name s ≡ some d)
        × ((get_client_by_name c.name (nick fd c args s) ≡ none)
            × (lookup other (nick fd c args s).clients ≡ some d))
  unfolding get_client_by_name
  nick-get_client_by_name taken there elsewhere given new free =
      let (names, clients) = nick-renamed given free in
      let name = (next_word args).0 in
      let gone : lookup c.name (nick fd c args s).name_to_socket ≡ none = rw names (
        grind (
          arith,
          lookup-insert name c.name fd (erase c.name s.name_to_socket),
          lookup-erase c.name c.name s.name_to_socket,
          equal_iff name c.name,
          equal_iff c.name c.name,
          new,
        )) in
      let kept : lookup other (nick fd c args s).clients ≡ some d = rw clients (
        grind (
          arith,
          lookup-insert fd other (record c { name = name }) s.clients,
          eqb_iff fd other,
          elsewhere,
          there,
        )) in
      (ground (arith, taken, there), (ground (arith, gone), kept))
