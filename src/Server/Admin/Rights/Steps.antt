-- ===== src/Server/Admin/Rights/Steps.antt =====
-- src/server.cpp: is_admin over one input of the server.
use smallchat.Base.{
  ℕ, ◌⊎◌, List, [], ◌∷◌, ap, ◌∙◌, length, ◌≡◌, refl, true, some, Bytes, arith, inl, inr,
  Option-cases, eqb_iff, lookup, nat_eq, is_empty,
}
use smallchat.Codec.Message.{decode, blank}
use smallchat.Server.Admin.Rights.{
  Earned, admin_at, Same-Earned, client-insert, login-Earned, nick-Earned, register-Earned,
  mute-Earned, unmute-Earned, kick-Earned, accept-Earned, remove_client-Earned, create_room-Earned,
  join_room-Earned, leave_room-Earned, quit-Earned,
}
use smallchat.Server.Command.{run_word, handle_command}
use smallchat.Server.Command.Words.{Word}
use smallchat.Server.Line.{
  Kind, kind_of, run_command, run_kind, handle_line, Input, connection, line, end, step, run,
}
use smallchat.Server.Messages.{allowed, handle_message, handle_plain, say}
use smallchat.Server.Registry.Lines.{if_all, deliver_message-Same, say-Same}
use smallchat.Server.Registry.Same.{
  Same, whisper-Same, unknown_command-Same, list_users-Same, help-Same, info-Same, list_rooms-Same,
  list_members-Same, show_history-Same, show_room_history-Same, transfer-Same, file_to_room-Same,
  handle_file_transfer-Same, handle_file_request-Same, handle_file_response-Same,
  handle_file_data-Same, handle_read_receipt-Same,
}
use smallchat.Server.Send.{get_client_by_socket}
use smallchat.Server.State.{ClientInfo, Server, Env, Outcome, returns, stops, ◌>>=◌, left}

module _ (k : ℕ) (env : Env) (fd : ℕ) (s : Server) where
  allowed-Earned :
      (deliver : ClientInfo → Server → Server)
      → ((c : ClientInfo) (t : Server) → Same t (deliver c t))
      → Earned k s (allowed env fd s deliver)
  unfolding allowed get_client_by_socket Earned admin_at
  allowed-Earned deliver same = grind (arith, same, client-insert k, eqb_iff fd k)

  handle_plain-Earned : (l : Bytes) → Earned k s (handle_plain env fd l s)
  unfolding handle_plain
  handle_plain-Earned l = allowed-Earned (say env fd l) (say-Same env fd l)

  handle_message-Earned : (l : Bytes) → Earned k s (handle_message env fd l s)
  unfolding handle_message Earned
  handle_message-Earned l = elim (Option-cases (decode env.now l blank)) [
    | inl e ↦ rw (e, handle_message) (λ h. inl h)
    | inr (m, e) ↦
        rw (e, handle_message) (allowed-Earned _ λ c t. deliver_message-Same env fd l m t)
  ]

module _ (k : ℕ) (env : Env) (fd : ℕ) (c : ClientInfo) (s : Server)
    (here : lookup fd s.clients ≡ some c) where
  run_word-Earned :
      (w : Word) (cmd args command : Bytes)
      → Earned k s (left (run_word w env fd c cmd args command s))
  unfolding run_word
  run_word-Earned Word.login cmd args command = login-Earned k env fd c args s here
  run_word-Earned Word.register cmd args command = register-Earned k env fd c args s here
  run_word-Earned Word.register_again cmd args command = register-Earned k env fd c args s here
  run_word-Earned Word.quit cmd args command = quit-Earned k env fd c s here
  run_word-Earned Word.nick cmd args command = nick-Earned k env fd c args s here
  run_word-Earned Word.create_room cmd args command = create_room-Earned k env fd c s here args
  run_word-Earned Word.join_room cmd args command = join_room-Earned k env fd c s here args
  run_word-Earned Word.leave_room cmd args command = leave_room-Earned k env fd c s here
  run_word-Earned Word.mute cmd args command = mute-Earned k env fd c args s
  run_word-Earned Word.unmute cmd args command = unmute-Earned k env fd c args s
  run_word-Earned Word.kick cmd args command = kick-Earned k env fd c args s
  run_word-Earned Word.users cmd args command = Same-Earned k s _ (list_users-Same fd s)
  run_word-Earned Word.whisper cmd args command = Same-Earned k s _ (whisper-Same env fd c args s)
  run_word-Earned Word.help cmd args command = Same-Earned k s _ (help-Same fd s)
  run_word-Earned Word.info cmd args command = Same-Earned k s _ (info-Same fd s)
  run_word-Earned Word.rooms cmd args command = Same-Earned k s _ (list_rooms-Same fd s)
  run_word-Earned Word.room_members cmd args command = Same-Earned k s _ (list_members-Same fd c s)
  run_word-Earned Word.history cmd args command =
      Same-Earned k s _ (show_history-Same env fd args s)
  run_word-Earned Word.room_history cmd args command =
      Same-Earned k s _ (show_room_history-Same env fd c args s)
  run_word-Earned Word.transfer cmd args command = Same-Earned k s _ (transfer-Same env fd c args s)
  run_word-Earned Word.file cmd args command = Same-Earned k s _ (file_to_room-Same env fd c args s)
  run_word-Earned Word.unknown cmd args command =
      Same-Earned k s _ (unknown_command-Same env fd c cmd command s)

module _ (k : ℕ) (env : Env) (fd : ℕ) (s : Server) where
  run_command-Earned : (l : Bytes) → Earned k s (left (run_command env fd l s))
  unfolding run_command handle_command get_client_by_socket Earned
  run_command-Earned l = elim (Option-cases (lookup fd s.clients)) [
    | inl e ↦ rw (e, run_command) (λ h. inl h)
    | inr (c, e) ↦ rw (e, run_command) (run_word-Earned k env fd c s e _ _ _ l)
  ]

  run_kind-Earned : (kind : Kind) (l : Bytes) → Earned k s (left (run_kind kind env fd l s))
  unfolding run_kind
  run_kind-Earned Kind.command l = run_command-Earned l
  run_kind-Earned Kind.message l = handle_message-Earned k env fd s l
  run_kind-Earned Kind.file_transfer l = Same-Earned k s _ (handle_file_transfer-Same fd l s)
  run_kind-Earned Kind.file_request l = Same-Earned k s _ (handle_file_request-Same fd l s)
  run_kind-Earned Kind.file_response l = Same-Earned k s _ (handle_file_response-Same fd l s)
  run_kind-Earned Kind.file_data l = Same-Earned k s _ (handle_file_data-Same fd l s)
  run_kind-Earned Kind.read_receipt l = Same-Earned k s _ (handle_read_receipt-Same l s)
  run_kind-Earned Kind.plain l = handle_plain-Earned k env fd s l

  handle_line-Earned : (l : Bytes) → Earned k s (left (handle_line env fd l s))
  unfolding handle_line Earned
  handle_line-Earned l =
      if_all (λ o. Earned k s (left o)) (is_empty l) _ _ (λ h. inl h)
        (run_kind-Earned (kind_of l) l)

step-Earned : (k : ℕ) (i : Input) (s : Server) → Earned k s (left (step i s))
unfolding step
step-Earned k (connection fd ip_address port now) s = accept-Earned k fd ip_address port now s
step-Earned k (line env fd l) s = handle_line-Earned k env fd s l
step-Earned k (end env fd) s = remove_client-Earned k env fd fd s

-- A run in which there is a time with one registered user, behind some input.
pub data HasOneUser : List Input → Server → Type 0 where
  now :
      {i : Input} {is : List Input} {s : Server}
      → length (left (step i s)).users ≡ 1
      → HasOneUser (i ∷ is) s
  later :
      {i : Input} {is : List Input} {s v : Server}
      → step i s ≡ returns v
      → HasOneUser is v
      → HasOneUser (i ∷ is) s

module _ (k : ℕ) (i : Input) (is : List Input) (s : Server) where
  earned_now : admin_at k (left (step i s)) ≡ true → (admin_at k s ≡ true) ⊎ HasOneUser (i ∷ is) s
  unfolding Earned
  earned_now h = elim (step-Earned k i s h) [ inl before ↦ inl before | inr one ↦ inr (now one) ]

  -- The rest of the run behind the outcome of its first input.
  behind-Earned :
      (o : Outcome Server)
      → step i s ≡ o
      → ((v : Server)
          → admin_at k (left (run is v)) ≡ true
          → (admin_at k v ≡ true) ⊎ HasOneUser is v)
      → admin_at k (left (do v ← o; run is v)) ≡ true
      → (admin_at k s ≡ true) ⊎ HasOneUser (i ∷ is) s
  behind-Earned (returns v) e rest h = elim (rest v h) [
    | inl before ↦ earned_now (ap (λ o. admin_at k (left o)) e ∙ before)
    | inr one ↦ inr (later e one)
  ]
  behind-Earned (stops why v) e rest h = earned_now (ap (λ o. admin_at k (left o)) e ∙ h)

-- Who is administrator at the end of a run of the server, also where it stops, was it at the beginning,
-- or there was a time in the run at which one user was registered: nothing else gives the rights.
pub run-HasOneUser :
    (k : ℕ) (is : List Input) (s : Server)
    → admin_at k (left (run is s)) ≡ true
    → (admin_at k s ≡ true) ⊎ HasOneUser is s
unfolding run
run-HasOneUser k [] s h = inl h
run-HasOneUser k (i ∷ is) s h = behind-Earned k i is s (step i s) refl (run-HasOneUser k is) h
