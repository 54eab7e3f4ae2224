-- ===== src/Server/Leave/Never/Lines.antt =====
-- src/server.cpp: a client's thread, whatever the client sends.
use smallchat.Base.{
  ℕ, suc, Bool, eqb_iff, lookup-insert, ◌≡◌, refl, ◌∙◌, ap, true, false, Bytes, List, [], ◌∷◌, All,
  Lacks, arith, inl, inr, Option-cases, lookup, nat_eq, is_empty,
}
use smallchat.Codec.Lines.{send_lines}
use smallchat.Codec.Lines.Chunks.{IsText, joined}
use smallchat.Codec.Message.{decode, blank, newline}
use smallchat.Server.Command.{run_word, handle_command}
use smallchat.Server.Command.Words.{Word}
use smallchat.Server.Leave.{remove_client, join_thread, forget}
use smallchat.Server.Leave.Never.{
  has_thread, holds, login-holds, register-holds, nick-holds, create_room-holds, join_room-holds,
  leave_room-holds, mute-holds, unmute-holds, kick-holds, quit-holds,
}
use smallchat.Server.Line.{
  Kind, kind_of, run_command, run_kind, handle_line, run, step, Input, accept,
}
use smallchat.Server.Messages.{allowed, handle_message, handle_plain, say}
use smallchat.Server.Registry.Lines.{if_all, deliver_message-Same, say-Same}
use smallchat.Server.Registry.Same.{
  Same, whisper-Same, unknown_command-Same, list_users-Same, help-Same, info-Same, list_rooms-Same,
  list_members-Same, show_history-Same, show_room_history-Same, transfer-Same, file_to_room-Same,
  handle_file_transfer-Same, handle_file_request-Same, handle_file_response-Same,
  handle_file_data-Same, handle_read_receipt-Same,
}
use smallchat.Server.Send.{get_client_by_socket}
use smallchat.Server.State.{ClientInfo, Server, Env, Outcome, returns, stops, left, ◌>>=◌}
use smallchat.Server.Threads.{handle_client}
use smallchat.Server.Threads.Chunks.{arrive, inputs, ends, handle_client-run}

module _ (fd : ℕ) (s : Server) (h : has_thread fd s ≡ true) where
  Same-has_thread : (v : Server) → Same s v → has_thread fd v ≡ true
  unfolding has_thread
  Same-has_thread v same = grind (arith, h, same.threads)

  Same-holds : (o : Outcome Server) → Same s (left o) → holds fd o ≡ true
  unfolding holds
  Same-holds (returns v) same = Same-has_thread v same
  Same-holds (stops why v) same = refl

module _ (env : Env) (fd : ℕ) (s : Server) (h : has_thread fd s ≡ true) where
  allowed-has_thread :
      (deliver : ClientInfo → Server → Server)
      → ((c : ClientInfo) (t : Server) → Same t (deliver c t))
      → has_thread fd (allowed env fd s deliver) ≡ true
  unfolding allowed get_client_by_socket has_thread
  allowed-has_thread deliver same = grind (arith, h, same)

  handle_plain-has_thread : (l : Bytes) → has_thread fd (handle_plain env fd l s) ≡ true
  unfolding handle_plain
  handle_plain-has_thread l = allowed-has_thread (say env fd l) (say-Same env fd l)

  handle_message-has_thread : (l : Bytes) → has_thread fd (handle_message env fd l s) ≡ true
  unfolding handle_message has_thread
  handle_message-has_thread l = elim (Option-cases (decode env.now l blank)) [
    | inl e ↦ rw (e, handle_message) h
    | inr (m, e) ↦
        rw (e, handle_message) (allowed-has_thread _ λ c t. deliver_message-Same env fd l m t)
  ]

module _ (env : Env) (fd : ℕ) (c : ClientInfo) (s : Server) (h : has_thread fd s ≡ true) where
  run_word-holds :
      (w : Word) (cmd args command : Bytes)
      → holds fd (run_word w env fd c cmd args command s) ≡ true
  unfolding run_word holds
  run_word-holds Word.login cmd args command = login-holds env fd c args s h
  run_word-holds Word.register cmd args command = register-holds env fd c args s h
  run_word-holds Word.register_again cmd args command = register-holds env fd c args s h
  run_word-holds Word.nick cmd args command = nick-holds env fd c args s h
  run_word-holds Word.create_room cmd args command = create_room-holds env fd c args s h
  run_word-holds Word.join_room cmd args command = join_room-holds env fd c args s h
  run_word-holds Word.leave_room cmd args command = leave_room-holds env fd c args s h
  run_word-holds Word.mute cmd args command = mute-holds env fd c args s h
  run_word-holds Word.unmute cmd args command = unmute-holds env fd c args s h
  run_word-holds Word.kick cmd args command = kick-holds env fd c args s h
  run_word-holds Word.quit cmd args command = quit-holds env fd c args s h
  run_word-holds Word.users cmd args command = Same-has_thread fd s h _ (list_users-Same fd s)
  run_word-holds Word.whisper cmd args command =
      Same-has_thread fd s h _ (whisper-Same env fd c args s)
  run_word-holds Word.help cmd args command = Same-has_thread fd s h _ (help-Same fd s)
  run_word-holds Word.info cmd args command = Same-has_thread fd s h _ (info-Same fd s)
  run_word-holds Word.rooms cmd args command = Same-has_thread fd s h _ (list_rooms-Same fd s)
  run_word-holds Word.room_members cmd args command =
      Same-has_thread fd s h _ (list_members-Same fd c s)
  run_word-holds Word.history cmd args command =
      Same-has_thread fd s h _ (show_history-Same env fd args s)
  run_word-holds Word.room_history cmd args command =
      Same-has_thread fd s h _ (show_room_history-Same env fd c args s)
  run_word-holds Word.transfer cmd args command =
      Same-has_thread fd s h _ (transfer-Same env fd c args s)
  run_word-holds Word.file cmd args command =
      Same-has_thread fd s h _ (file_to_room-Same env fd c args s)
  run_word-holds Word.unknown cmd args command =
      Same-has_thread fd s h _ (unknown_command-Same env fd c cmd command s)

module _ (env : Env) (fd : ℕ) (s : Server) (h : has_thread fd s ≡ true) where
  run_command-holds : (l : Bytes) → holds fd (run_command env fd l s) ≡ true
  unfolding run_command handle_command get_client_by_socket holds
  run_command-holds l = elim (Option-cases (lookup fd s.clients)) [
    | inl e ↦ rw (e, run_command) h
    | inr (c, e) ↦ rw (e, run_command) (run_word-holds env fd c s h _ _ _ l)
  ]

  run_kind-holds : (kind : Kind) (l : Bytes) → holds fd (run_kind kind env fd l s) ≡ true
  unfolding run_kind holds
  run_kind-holds Kind.command l = run_command-holds l
  run_kind-holds Kind.message l = handle_message-has_thread env fd s h l
  run_kind-holds Kind.file_transfer l = Same-holds fd s h _ (handle_file_transfer-Same fd l s)
  run_kind-holds Kind.file_request l = Same-holds fd s h _ (handle_file_request-Same fd l s)
  run_kind-holds Kind.file_response l = Same-holds fd s h _ (handle_file_response-Same fd l s)
  run_kind-holds Kind.file_data l = Same-holds fd s h _ (handle_file_data-Same fd l s)
  run_kind-holds Kind.read_receipt l = Same-has_thread fd s h _ (handle_read_receipt-Same l s)
  run_kind-holds Kind.plain l = handle_plain-has_thread env fd s h l

  handle_line-holds : (l : Bytes) → holds fd (handle_line env fd l s) ≡ true
  unfolding handle_line holds
  handle_line-holds l =
      if_all (λ o. holds fd o ≡ true) (is_empty l) _ _ h (run_kind-holds (kind_of l) l)

-- A call that does not return.
unfoldable pub has_stopped {ℓ} : {A : Type ℓ} → Outcome A → Bool
has_stopped (returns x) = false
has_stopped (stops why v) = true

end-has_stopped :
    (env : Env) (fd : ℕ) (s : Server)
    → has_thread fd s ≡ true
    → has_stopped (do v ← remove_client env fd fd s; returns v) ≡ true
unfolding remove_client join_thread forget has_thread has_stopped
end-has_stopped env fd s h = grind (arith, h, eqb_iff fd fd)

module _ (env : ℕ → Env) (fd : ℕ) where
  then_stopped :
      (o : Outcome Server) (is : List Input)
      → holds fd o ≡ true
      → ((v : Server) → has_thread fd v ≡ true → has_stopped (run is v) ≡ true)
      → has_stopped (do v ← o; run is v) ≡ true
  unfolding holds has_stopped
  then_stopped (returns v) is h rest = rest v h
  then_stopped (stops why v) is h rest = refl

  run-has_stopped :
      (lines : List Bytes) (n : ℕ) (s : Server)
      → has_thread fd s ≡ true
      → has_stopped (run (inputs env n fd lines) s) ≡ true
  unfolding run step
  run-has_stopped [] n s h = end-has_stopped (env n) fd s h
  run-has_stopped (l ∷ lines) n s h =
      then_stopped (handle_line (env n) fd l s) (inputs env (suc n) fd lines)
        (handle_line-holds (env n) fd s h l) (run-has_stopped lines (suc n))

  ends-has_stopped : (o : Outcome Server) → has_stopped o ≡ true → has_stopped (ends o) ≡ true
  unfolding has_stopped
  ends-has_stopped (returns v) h = ground (arith, h)
  ends-has_stopped (stops why v) h = refl

  accept-has_thread :
      (ip_address : Bytes) (port time : ℕ) (s : Server)
      → has_thread fd (accept fd ip_address port time s) ≡ true
  unfolding accept has_thread
  accept-has_thread ip_address port time s =
      grind (arith, lookup-insert fd fd true s.client_threads, eqb_iff fd fd)

  -- A client comes to a server that runs, sends what it likes, in any chunks, and ends its connection:
  -- its thread does not come to its end, since some call in it does not return, at the latest the one
  -- that removes the client. No line holds a newline and no chunk a NUL byte; no other thread comes in
  -- between.
  pub handle_client-has_stopped :
      (ip_address : Bytes) (port time : ℕ) (lines chunks : List Bytes) (s : Server)
      → All (Lacks newline) lines
      → All IsText chunks
      → joined chunks ≡ send_lines lines
      → has_stopped (handle_client env 0 fd (arrive chunks) [] (accept fd ip_address port time s))
        ≡ true
  handle_client-has_stopped ip_address port time lines chunks s whole text e =
      let up = accept fd ip_address port time s in
      ap (λ o. has_stopped o) (handle_client-run env fd lines chunks up whole text e)
      ∙ ends-has_stopped (run (inputs env 0 fd lines) up)
          (run-has_stopped lines 0 up (accept-has_thread ip_address port time s))
