-- ===== src/Server/Registry/Once/Steps.antt =====
-- src/server.cpp: no socket stands twice in clients_, over the inputs of a server.
use smallchat.Base.{
  ℕ, ◌≡◌, ◌∙◌, ap, true, Bytes, List, [], ◌∷◌, arith, inl, inr, Option-cases, lookup, nat_eq,
  is_empty,
}
use smallchat.Codec.Message.{decode, blank}
use smallchat.Server.Command.{run_word, handle_command}
use smallchat.Server.Command.Words.{Word}
use smallchat.Server.Line.{
  Kind, kind_of, run_command, run_kind, handle_line, run, step, Input, connection, line, end,
}
use smallchat.Server.Messages.{allowed, handle_message, handle_plain, say}
use smallchat.Server.Registry.Lines.{if_all, deliver_message-Same, say-Same}
use smallchat.Server.Registry.Once.{
  is_single, are_distinct, insert-are_distinct, login-is_single, register-is_single, nick-is_single,
  create_room-is_single, join_room-is_single, leave_room-is_single, mute-is_single,
  unmute-is_single, kick-is_single, quit-is_single, accept-is_single, remove_client-is_single,
}
use smallchat.Server.Registry.Same.{
  Same, whisper-Same, unknown_command-Same, list_users-Same, help-Same, info-Same, list_rooms-Same,
  list_members-Same, show_history-Same, show_room_history-Same, transfer-Same, file_to_room-Same,
  handle_file_transfer-Same, handle_file_request-Same, handle_file_response-Same,
  handle_file_data-Same, handle_read_receipt-Same,
}
use smallchat.Server.Send.{get_client_by_socket}
use smallchat.Server.State.{ClientInfo, Server, Env, Outcome, returns, stops, left, ◌>>=◌}

module _ (s : Server) (h : is_single s ≡ true) where
  Same-is_single : (v : Server) → Same s v → is_single v ≡ true
  unfolding is_single
  Same-is_single v same = ap are_distinct same.clients ∙ h

  module _ (env : Env) (fd : ℕ) where
    allowed-is_single :
        (deliver : ClientInfo → Server → Server)
        → ((c : ClientInfo) (t : Server) → Same t (deliver c t))
        → is_single (allowed env fd s deliver) ≡ true
    unfolding allowed get_client_by_socket is_single
    allowed-is_single deliver same = grind (arith, h, same, insert-are_distinct)

    handle_message-is_single : (l : Bytes) → is_single (handle_message env fd l s) ≡ true
    unfolding handle_message
    handle_message-is_single l = elim (Option-cases (decode env.now l blank)) [
      | inl e ↦ rw (e, handle_message) (unfold is_single in h)
      | inr (m, e) ↦
          rw (e, handle_message) (allowed-is_single _ λ c t. deliver_message-Same env fd l m t)
    ]

    run_word-is_single :
        (c : ClientInfo) (w : Word) (cmd args command : Bytes)
        → is_single (left (run_word w env fd c cmd args command s)) ≡ true
    unfolding run_word
    run_word-is_single c Word.login cmd args command = login-is_single env fd c args s h
    run_word-is_single c Word.register cmd args command = register-is_single env fd c args s h
    run_word-is_single c Word.register_again cmd args command = register-is_single env fd c args s h
    run_word-is_single c Word.nick cmd args command = nick-is_single env fd c args s h
    run_word-is_single c Word.create_room cmd args command = create_room-is_single env fd c args s h
    run_word-is_single c Word.join_room cmd args command = join_room-is_single env fd c args s h
    run_word-is_single c Word.leave_room cmd args command = leave_room-is_single env fd c args s h
    run_word-is_single c Word.mute cmd args command = mute-is_single env fd c args s h
    run_word-is_single c Word.unmute cmd args command = unmute-is_single env fd c args s h
    run_word-is_single c Word.kick cmd args command = kick-is_single env fd c args s h
    run_word-is_single c Word.quit cmd args command = quit-is_single env fd c args s h
    run_word-is_single c Word.users cmd args command = Same-is_single _ (list_users-Same fd s)
    run_word-is_single c Word.whisper cmd args command =
        Same-is_single _ (whisper-Same env fd c args s)
    run_word-is_single c Word.help cmd args command = Same-is_single _ (help-Same fd s)
    run_word-is_single c Word.info cmd args command = Same-is_single _ (info-Same fd s)
    run_word-is_single c Word.rooms cmd args command = Same-is_single _ (list_rooms-Same fd s)
    run_word-is_single c Word.room_members cmd args command =
        Same-is_single _ (list_members-Same fd c s)
    run_word-is_single c Word.history cmd args command =
        Same-is_single _ (show_history-Same env fd args s)
    run_word-is_single c Word.room_history cmd args command =
        Same-is_single _ (show_room_history-Same env fd c args s)
    run_word-is_single c Word.transfer cmd args command =
        Same-is_single _ (transfer-Same env fd c args s)
    run_word-is_single c Word.file cmd args command =
        Same-is_single _ (file_to_room-Same env fd c args s)
    run_word-is_single c Word.unknown cmd args command =
        Same-is_single _ (unknown_command-Same env fd c cmd command s)

    run_command-is_single : (l : Bytes) → is_single (left (run_command env fd l s)) ≡ true
    unfolding run_command handle_command get_client_by_socket
    run_command-is_single l = elim (Option-cases (lookup fd s.clients)) [
      | inl e ↦ rw (e, run_command) h
      | inr (c, e) ↦ rw (e, run_command) (run_word-is_single c _ _ _ l)
    ]

    run_kind-is_single :
        (kind : Kind) (l : Bytes) → is_single (left (run_kind kind env fd l s)) ≡ true
    unfolding run_kind handle_plain
    run_kind-is_single Kind.command l = run_command-is_single l
    run_kind-is_single Kind.message l = handle_message-is_single l
    run_kind-is_single Kind.file_transfer l = Same-is_single _ (handle_file_transfer-Same fd l s)
    run_kind-is_single Kind.file_request l = Same-is_single _ (handle_file_request-Same fd l s)
    run_kind-is_single Kind.file_response l = Same-is_single _ (handle_file_response-Same fd l s)
    run_kind-is_single Kind.file_data l = Same-is_single _ (handle_file_data-Same fd l s)
    run_kind-is_single Kind.read_receipt l = Same-is_single _ (handle_read_receipt-Same l s)
    run_kind-is_single Kind.plain l = allowed-is_single (say env fd l) (say-Same env fd l)

    handle_line-is_single : (l : Bytes) → is_single (left (handle_line env fd l s)) ≡ true
    unfolding handle_line
    handle_line-is_single l =
        if_all (λ o. is_single (left o) ≡ true) (is_empty l) _ _ h
          (run_kind-is_single (kind_of l) l)

step-is_single : (i : Input) (s : Server) → is_single s ≡ true → is_single (left (step i s)) ≡ true
unfolding step
step-is_single (connection fd ip_address port now) s h = accept-is_single fd ip_address port now s h
step-is_single (line env fd l) s h = handle_line-is_single s h env fd l
step-is_single (end env fd) s h = remove_client-is_single env fd fd s h

then_single :
    (is : List Input) (o : Outcome Server)
    → ((s : Server) → is_single s ≡ true → is_single (left (run is s)) ≡ true)
    → is_single (left o) ≡ true
    → is_single (left (do s ← o; run is s)) ≡ true
then_single is (returns s) f h = f s h
then_single is (stops why s) f h = h

pub run-is_single :
    (is : List Input) (s : Server) → is_single s ≡ true → is_single (left (run is s)) ≡ true
unfolding run
run-is_single [] s h = h
run-is_single (i ∷ is) s h = then_single is (step i s) (run-is_single is) (step-is_single i s h)
