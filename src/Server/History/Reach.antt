-- ===== src/Server/History/Reach.antt =====
-- src/server.cpp: the length of the histories over the inputs of a server.
use smallchat.Base.{
  ℕ, List, [], ◌∷◌, Bytes, inl, inr, lookup, nat_eq, bytes_eq, Option-cases, is_empty,
}
use smallchat.Server.Command.Words.{Word}
use smallchat.Server.Command.{run_word, handle_command}
use smallchat.Server.History.Bounds.{IsBounded}
use smallchat.Server.History.Quiet.{
  list_users-Quiet, help-Quiet, info-Quiet, list_rooms-Quiet, list_members-Quiet,
  show_history-Quiet, show_room_history-Quiet, transfer-Quiet, file_to_room-Quiet,
  handle_file_transfer-Quiet, handle_file_request-Quiet, handle_file_response-Quiet,
  handle_file_data-Quiet,
}
use smallchat.Server.History.Quiet.Commands.{
  nick-Quiet, leave_room-Quiet, accept-Quiet, login-Quiet, register-Quiet, create_room-Quiet,
  join_room-Quiet, mute-Quiet, unmute-Quiet, remove_client-Quiet, kick-Quiet, quit-Quiet,
}
use smallchat.Server.History.Receipts.{handle_read_receipt-IsBounded}
use smallchat.Server.History.Recorded.{
  Quiet-IsBounded, whisper-IsBounded, unknown_command-IsBounded, handle_plain-IsBounded,
  handle_message-IsBounded,
}
use smallchat.Server.Line.{
  Kind, kind_of, run_command, run_kind, handle_line, Input, connection, line, end, step, run,
}
use smallchat.Server.Registry.Lines.{if_all}
use smallchat.Server.Send.{get_client_by_socket}
use smallchat.Server.State.{ClientInfo, Server, Env, Outcome, returns, stops, left, ◌>>=◌}

-- The histories of the state that a call leaves, also where it stops.
abbrev pub LeavesBounded : Outcome Server → Type 0
LeavesBounded r = IsBounded (left r)

module _ (env : Env) (fd : ℕ) (c : ClientInfo) (s : Server) (v : IsBounded s) where
  run_word-IsBounded :
      (w : Word) (cmd args command : Bytes) → LeavesBounded (run_word w env fd c cmd args command s)
  unfolding run_word
  run_word-IsBounded Word.login cmd args command = Quiet-IsBounded (login-Quiet env fd c args s) v
  run_word-IsBounded Word.register cmd args command =
      Quiet-IsBounded (register-Quiet env fd c args s) v
  run_word-IsBounded Word.users cmd args command = Quiet-IsBounded (list_users-Quiet fd s) v
  run_word-IsBounded Word.whisper cmd args command = whisper-IsBounded env fd c s v args
  run_word-IsBounded Word.help cmd args command = Quiet-IsBounded (help-Quiet fd s) v
  run_word-IsBounded Word.quit cmd args command = Quiet-IsBounded (quit-Quiet env fd c args s) v
  run_word-IsBounded Word.nick cmd args command = Quiet-IsBounded (nick-Quiet fd c args s) v
  run_word-IsBounded Word.info cmd args command = Quiet-IsBounded (info-Quiet fd s) v
  run_word-IsBounded Word.register_again cmd args command =
      Quiet-IsBounded (register-Quiet env fd c args s) v
  run_word-IsBounded Word.create_room cmd args command =
      Quiet-IsBounded (create_room-Quiet env fd c args s) v
  run_word-IsBounded Word.join_room cmd args command =
      Quiet-IsBounded (join_room-Quiet env fd c args s) v
  run_word-IsBounded Word.leave_room cmd args command =
      Quiet-IsBounded (leave_room-Quiet fd c args s) v
  run_word-IsBounded Word.rooms cmd args command = Quiet-IsBounded (list_rooms-Quiet fd s) v
  run_word-IsBounded Word.room_members cmd args command =
      Quiet-IsBounded (list_members-Quiet fd c s) v
  run_word-IsBounded Word.history cmd args command =
      Quiet-IsBounded (show_history-Quiet env fd args s) v
  run_word-IsBounded Word.room_history cmd args command =
      Quiet-IsBounded (show_room_history-Quiet env fd c args s) v
  run_word-IsBounded Word.mute cmd args command = Quiet-IsBounded (mute-Quiet env fd c args s) v
  run_word-IsBounded Word.unmute cmd args command = Quiet-IsBounded (unmute-Quiet env fd c args s) v
  run_word-IsBounded Word.kick cmd args command = Quiet-IsBounded (kick-Quiet env fd c args s) v
  run_word-IsBounded Word.transfer cmd args command =
      Quiet-IsBounded (transfer-Quiet env fd c args s) v
  run_word-IsBounded Word.file cmd args command =
      Quiet-IsBounded (file_to_room-Quiet env fd c args s) v
  run_word-IsBounded Word.unknown cmd args command =
      unknown_command-IsBounded env fd c s v cmd command

module _ (env : Env) (fd : ℕ) (s : Server) (v : IsBounded s) where
  run_command-IsBounded : (l : Bytes) → LeavesBounded (run_command env fd l s)
  unfolding run_command handle_command get_client_by_socket
  run_command-IsBounded l = elim (Option-cases (lookup fd s.clients)) [
    | inl e ↦ rw (e, run_command) v
    | inr (c, e) ↦ rw (e, run_command) (run_word-IsBounded env fd c s v _ _ _ l)
  ]

  run_kind-IsBounded : (k : Kind) (l : Bytes) → LeavesBounded (run_kind k env fd l s)
  unfolding run_kind
  run_kind-IsBounded Kind.command l = run_command-IsBounded l
  run_kind-IsBounded Kind.message l = handle_message-IsBounded env fd s v l
  run_kind-IsBounded Kind.file_transfer l = Quiet-IsBounded (handle_file_transfer-Quiet fd l s) v
  run_kind-IsBounded Kind.file_request l = Quiet-IsBounded (handle_file_request-Quiet fd l s) v
  run_kind-IsBounded Kind.file_response l = Quiet-IsBounded (handle_file_response-Quiet fd l s) v
  run_kind-IsBounded Kind.file_data l = Quiet-IsBounded (handle_file_data-Quiet fd l s) v
  run_kind-IsBounded Kind.read_receipt l = handle_read_receipt-IsBounded s v l
  run_kind-IsBounded Kind.plain l = handle_plain-IsBounded env fd s v l

  handle_line-IsBounded : (l : Bytes) → LeavesBounded (handle_line env fd l s)
  unfolding handle_line
  handle_line-IsBounded l =
      if_all LeavesBounded (is_empty l) _ _ v (run_kind-IsBounded (kind_of l) l)

-- No input of the server makes a history longer than 1000 messages: a step from a state in which all
-- histories are within the bound leaves a state of this kind, also where the server stops at it.
pub step-IsBounded : (i : Input) (s : Server) → IsBounded s → LeavesBounded (step i s)
unfolding step
step-IsBounded (connection fd ip_address port now) s v =
    Quiet-IsBounded (accept-Quiet fd s ip_address port now) v
step-IsBounded (line env fd l) s v = handle_line-IsBounded env fd s v l
step-IsBounded (end env fd) s v = Quiet-IsBounded (remove_client-Quiet env fd fd s) v

then_bounded :
    (is : List Input) (o : Outcome Server)
    → ((s : Server) → IsBounded s → LeavesBounded (run is s))
    → LeavesBounded o
    → LeavesBounded (o >>= run is)
then_bounded is (returns s) f v = f s v
then_bounded is (stops why s) f v = v

-- However long a server runs, and also where it stops, no history is longer than 1000 messages, if
-- none was at the beginning.
pub run-IsBounded : (is : List Input) (s : Server) → IsBounded s → LeavesBounded (run is s)
unfolding run
run-IsBounded [] s v = v
run-IsBounded (i ∷ is) s v = then_bounded is (step i s) (run-IsBounded is) (step-IsBounded i s v)
