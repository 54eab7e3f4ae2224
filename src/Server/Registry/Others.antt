-- ===== src/Server/Registry/Others.antt =====
-- src/server.cpp: what a line of one client does to the entries of the other clients.
use smallchat.Base.{
  ℕ, ◌≡◌, refl, ap, ◌∙◌, false, some, Bytes, arith, ◌⊎◌, inl, inr, Option-cases, lookup, insert,
  lookup-insert, lookup-erase, nat_eq, bytes_eq, eqb, is_empty, not, ltb,
}
use smallchat.Codec.Message.{decode, blank}
use smallchat.Server.Admin.Guard.{run_word_not_admin}
use smallchat.Server.Command.Words.{Word}
use smallchat.Server.Command.{run_word, handle_command}
use smallchat.Server.Leave.{forget, quit}
use smallchat.Server.Line.{Kind, kind_of, run_command, run_kind, handle_line}
use smallchat.Server.Messages.{allowed, handle_message, say, handle_plain}
use smallchat.Server.Registry.Commands.{
  Names, nick-Names, login-Names, register-Names, Moves, create_room-Moves, join_room-Moves,
  leave_room-Moves, remove_client-Sheds,
}
use smallchat.Server.Registry.Lines.{if_all, deliver_message-Same, say-Same}
use smallchat.Server.Registry.Same.{
  Same, whisper-Same, unknown_command-Same, list_users-Same, help-Same, info-Same, list_rooms-Same,
  list_members-Same, show_history-Same, show_room_history-Same, transfer-Same, file_to_room-Same,
  handle_file_transfer-Same, handle_file_request-Same, handle_file_response-Same,
  handle_file_data-Same, handle_read_receipt-Same,
}
use smallchat.Server.Registry.Steps.{left_room-Same}
use smallchat.Server.Send.{rename, get_client_by_socket}
use smallchat.Server.State.{ClientInfo, Server, Env, left}

-- Every other client is as it was.
abbrev Spares : ℕ → Server → Server → Type 0
Spares fd s t = (k : ℕ) → eqb fd k ≡ false → lookup k t.clients ≡ lookup k s.clients

Same-Spares : (fd : ℕ) {s t : Server} → Same s t → Spares fd s t
Same-Spares fd e k other = ap (lookup k) e.clients

put-Spares :
    (fd : ℕ) (c : ClientInfo) (s t : Server) → t.clients ≡ insert fd c s.clients → Spares fd s t
put-Spares fd c s t e k other = ap (lookup k) e ∙ ground (arith, lookup-insert fd k c s.clients)

Names-Spares :
    (fd : ℕ) (c : ClientInfo) (name : Bytes) (s t : Server) → Names fd c name s t → Spares fd s t
unfolding rename
Names-Spares fd c name s t (inl e) = Same-Spares fd e
Names-Spares fd c name s t (inr (inl e)) = put-Spares fd _ s t e.clients
Names-Spares fd c name s t (inr (inr (inl e))) = put-Spares fd _ s t e.clients
Names-Spares fd c name s t (inr (inr (inr e))) = put-Spares fd _ s t e.clients

Moves-Spares :
    (fd : ℕ) (c : ClientInfo) (room : Bytes) (s t : Server) → Moves fd c s room t → Spares fd s t
Moves-Spares fd c room s t (inl e) = Same-Spares fd e
Moves-Spares fd c room s t (inr e) = put-Spares fd _ s t e.clients

forget-Spares : (fd : ℕ) (s : Server) → Spares fd s (forget fd s)
unfolding forget
forget-Spares fd s k other = ground (arith, lookup-erase fd k s.clients)

module _ (env : Env) (fd : ℕ) (c : ClientInfo) (s : Server) where
  quit-Spares : Spares fd s (left (quit env fd c s))
  unfolding quit
  quit-Spares k other =
      ap (lookup k) (remove_client-Sheds env fd fd _).clients
      ∙ forget-Spares fd _ k other
      ∙ ap (lookup k) (left_room-Same c s).clients

module _ (env : Env) (fd : ℕ) (c : ClientInfo) (s : Server) (plain : c.is_admin ≡ false) where
  barred-Spares :
      (w : Word) (cmd args command : Bytes)
      → (w ≡ Word.mute) ⊎ ((w ≡ Word.unmute) ⊎ (w ≡ Word.kick))
      → Spares fd s (left (run_word w env fd c cmd args command s))
  barred-Spares w cmd args command kind k other =
      ap (λ o. lookup k (left o).clients)
        (run_word_not_admin env fd c cmd args command s w plain kind)

  run_word-Spares :
      (w : Word) (cmd args command : Bytes)
      → Spares fd s (left (run_word w env fd c cmd args command s))
  unfolding run_word
  run_word-Spares Word.login cmd args command =
      Names-Spares fd c _ s _ (login-Names env fd c args s)
  run_word-Spares Word.register cmd args command =
      Names-Spares fd c _ s _ (register-Names env fd c args s)
  run_word-Spares Word.users cmd args command = Same-Spares fd (list_users-Same fd s)
  run_word-Spares Word.whisper cmd args command = Same-Spares fd (whisper-Same env fd c args s)
  run_word-Spares Word.help cmd args command = Same-Spares fd (help-Same fd s)
  run_word-Spares Word.quit cmd args command = quit-Spares env fd c s
  run_word-Spares Word.nick cmd args command = Names-Spares fd c _ s _ (nick-Names fd c args s)
  run_word-Spares Word.info cmd args command = Same-Spares fd (info-Same fd s)
  run_word-Spares Word.register_again cmd args command =
      Names-Spares fd c _ s _ (register-Names env fd c args s)
  run_word-Spares Word.create_room cmd args command =
      Moves-Spares fd c _ s _ (create_room-Moves fd c s env args)
  run_word-Spares Word.join_room cmd args command =
      Moves-Spares fd c _ s _ (join_room-Moves fd c s env args)
  run_word-Spares Word.leave_room cmd args command =
      Moves-Spares fd c _ s _ (leave_room-Moves fd c s)
  run_word-Spares Word.rooms cmd args command = Same-Spares fd (list_rooms-Same fd s)
  run_word-Spares Word.room_members cmd args command = Same-Spares fd (list_members-Same fd c s)
  run_word-Spares Word.history cmd args command = Same-Spares fd (show_history-Same env fd args s)
  run_word-Spares Word.room_history cmd args command =
      Same-Spares fd (show_room_history-Same env fd c args s)
  run_word-Spares Word.mute cmd args command = barred-Spares Word.mute cmd args command (inl refl)
  run_word-Spares Word.unmute cmd args command =
      barred-Spares Word.unmute cmd args command (inr (inl refl))
  run_word-Spares Word.kick cmd args command =
      barred-Spares Word.kick cmd args command (inr (inr refl))
  run_word-Spares Word.transfer cmd args command = Same-Spares fd (transfer-Same env fd c args s)
  run_word-Spares Word.file cmd args command = Same-Spares fd (file_to_room-Same env fd c args s)
  run_word-Spares Word.unknown cmd args command =
      Same-Spares fd (unknown_command-Same env fd c cmd command s)

module _ (env : Env) (fd : ℕ) (c : ClientInfo) (s : Server)
    (here : lookup fd s.clients ≡ some c) where
  allowed-Spares :
      (deliver : ClientInfo → Server → Server)
      → ((d : ClientInfo) (t : Server) → Same t (deliver d t))
      → Spares fd s (allowed env fd s deliver)
  unfolding allowed get_client_by_socket
  allowed-Spares deliver keeps =
      let freed = record s { clients = insert fd (record c { is_muted = false }) s.clients } in
      rw (here, allowed)
        (if_all (Spares fd s) (not c.is_logged_in) _ _ (λ k other. refl)
          (if_all (Spares fd s) (not c.is_muted) _ _ (Same-Spares fd (keeps c s)) (
            if_all (Spares fd s) (ltb c.mute_end_time env.now) _ _
              (put-Spares fd (record c { is_muted = false }) s (deliver c freed)
                (keeps c freed).clients)
              (λ k other. refl))))

  handle_plain-Spares : (l : Bytes) → Spares fd s (handle_plain env fd l s)
  unfolding handle_plain
  handle_plain-Spares l = allowed-Spares (say env fd l) (say-Same env fd l)

  handle_message-Spares : (l : Bytes) → Spares fd s (handle_message env fd l s)
  unfolding handle_message
  handle_message-Spares l = elim (Option-cases (decode env.now l blank)) [
    | inl e ↦ rw (e, handle_message) (λ k other. refl)
    | inr (m, e) ↦
        rw (e, handle_message) (allowed-Spares _ λ d t. deliver_message-Same env fd l m t)
  ]

  run_command-Spares :
      c.is_admin ≡ false → (l : Bytes) → Spares fd s (left (run_command env fd l s))
  unfolding run_command handle_command get_client_by_socket
  run_command-Spares plain l = rw (here, run_command) (run_word-Spares env fd c s plain _ _ _ l)

  run_kind-Spares :
      c.is_admin ≡ false → (k : Kind) (l : Bytes) → Spares fd s (left (run_kind k env fd l s))
  unfolding run_kind
  run_kind-Spares plain Kind.command l = run_command-Spares plain l
  run_kind-Spares plain Kind.message l = handle_message-Spares l
  run_kind-Spares plain Kind.file_transfer l = Same-Spares fd (handle_file_transfer-Same fd l s)
  run_kind-Spares plain Kind.file_request l = Same-Spares fd (handle_file_request-Same fd l s)
  run_kind-Spares plain Kind.file_response l = Same-Spares fd (handle_file_response-Same fd l s)
  run_kind-Spares plain Kind.file_data l = Same-Spares fd (handle_file_data-Same fd l s)
  run_kind-Spares plain Kind.read_receipt l = Same-Spares fd (handle_read_receipt-Same l s)
  run_kind-Spares plain Kind.plain l = handle_plain-Spares l

  -- A client that is no administrator changes no other client: after any of its lines, also where
  -- the server stops at it, each other socket has the client that it had, with the same name, room,
  -- rights and mute.
  pub handle_line-Spares :
      c.is_admin ≡ false
      → (l : Bytes) (k : ℕ) → eqb fd k ≡ false
      → lookup k (left (handle_line env fd l s)).clients ≡ lookup k s.clients
  unfolding handle_line
  handle_line-Spares plain l =
      if_all (λ o. Spares fd s (left o)) (is_empty l) _ _ (λ k other. refl)
        (run_kind-Spares plain (kind_of l) l)
