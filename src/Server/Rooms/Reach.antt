-- ===== src/Server/Rooms/Reach.antt =====
-- src/server.cpp: rooms_ over the inputs of a server.
use smallchat.Base.{
  ℕ, refl, List, [], ◌∷◌, Bytes, arith, inl, inr, Option-cases, lookup, nat_eq, bytes_eq, is_empty,
}
use smallchat.Codec.Message.{ChatMessage, decode, blank}
use smallchat.Server.Command.{run_word, handle_command}
use smallchat.Server.Command.Words.{Word}
use smallchat.Server.Line.{
  Kind, kind_of, run_command, run_kind, handle_line, Input, connection, line, end, step, run,
}
use smallchat.Server.Messages.{
  allowed, deliver_message, deliver_private, deliver_room, say_in_room, say_to_all, handle_message,
  say, handle_plain,
}
use smallchat.Server.Registry.Lines.{if_all}
use smallchat.Server.Rooms.Changes.{
  create_room-IsFull, join_room-IsFull, leave_room-IsFull, quit-IsFull,
}
use smallchat.Server.Rooms.Full.{IsFull, LeavesFull, Kept-IsFull}
use smallchat.Server.Rooms.Kept.{
  Kept, broadcast-Kept, add_message_to_history-Kept, whisper-Kept, unknown_command-Kept,
  list_users-Kept, help-Kept, info-Kept, list_rooms-Kept, list_members-Kept, show_history-Kept,
  show_room_history-Kept, transfer-Kept, file_to_room-Kept, handle_file_transfer-Kept,
  handle_file_request-Kept, handle_file_response-Kept, handle_file_data-Kept,
  handle_read_receipt-Kept,
}
use smallchat.Server.Rooms.Kept.Commands.{
  nick-Kept, login-Kept, register-Kept, mute-Kept, unmute-Kept, kick-Kept, accept-Kept,
  remove_client-Kept,
}
use smallchat.Server.Send.{get_client_by_socket}
use smallchat.Server.State.{ClientInfo, Server, Env, Outcome, returns, stops, ◌>>=◌}

module _ (env : Env) (fd : ℕ) (s : Server) where
  deliver_message-Kept :
      (l : Bytes) (m : ChatMessage) (t : Server) → Kept t (deliver_message fd l m t)
  unfolding deliver_message deliver_private deliver_room
  deliver_message-Kept l m t = grind (arith, broadcast-Kept, add_message_to_history-Kept)

  say-Kept : (l : Bytes) (c : ClientInfo) (t : Server) → Kept t (say env fd l c t)
  unfolding say say_in_room say_to_all
  say-Kept l c t = grind (arith, broadcast-Kept, add_message_to_history-Kept)

  allowed-Kept :
      (deliver : ClientInfo → Server → Server)
      → ((c : ClientInfo) (t : Server) → Kept t (deliver c t))
      → Kept s (allowed env fd s deliver)
  unfolding allowed get_client_by_socket
  allowed-Kept deliver keeps = grind (arith, keeps)

  handle_plain-Kept : (l : Bytes) → Kept s (handle_plain env fd l s)
  unfolding handle_plain
  handle_plain-Kept l = allowed-Kept (say env fd l) (say-Kept l)

  handle_message-Kept : (l : Bytes) → Kept s (handle_message env fd l s)
  unfolding handle_message
  handle_message-Kept l = elim (Option-cases (decode env.now l blank)) [
    | inl e ↦ rw (e, handle_message) refl
    | inr (m, e) ↦ rw (e, handle_message) (allowed-Kept _ λ c t. deliver_message-Kept l m t)
  ]

module _ (env : Env) (fd : ℕ) (c : ClientInfo) (s : Server) (v : IsFull s) where
  run_word-IsFull :
      (w : Word) (cmd args command : Bytes) → LeavesFull (run_word w env fd c cmd args command s)
  unfolding run_word
  run_word-IsFull Word.login cmd args command = Kept-IsFull (login-Kept env fd c args s) v
  run_word-IsFull Word.register cmd args command = Kept-IsFull (register-Kept env fd c args s) v
  run_word-IsFull Word.users cmd args command = Kept-IsFull (list_users-Kept fd s) v
  run_word-IsFull Word.whisper cmd args command = Kept-IsFull (whisper-Kept env fd c args s) v
  run_word-IsFull Word.help cmd args command = Kept-IsFull (help-Kept fd s) v
  run_word-IsFull Word.quit cmd args command = quit-IsFull env fd c s v
  run_word-IsFull Word.nick cmd args command = Kept-IsFull (nick-Kept fd c args s) v
  run_word-IsFull Word.info cmd args command = Kept-IsFull (info-Kept fd s) v
  run_word-IsFull Word.register_again cmd args command =
      Kept-IsFull (register-Kept env fd c args s) v
  run_word-IsFull Word.create_room cmd args command = create_room-IsFull env fd c s v args
  run_word-IsFull Word.join_room cmd args command = join_room-IsFull env fd c s v args
  run_word-IsFull Word.leave_room cmd args command = leave_room-IsFull env fd c s v
  run_word-IsFull Word.rooms cmd args command = Kept-IsFull (list_rooms-Kept fd s) v
  run_word-IsFull Word.room_members cmd args command = Kept-IsFull (list_members-Kept fd c s) v
  run_word-IsFull Word.history cmd args command = Kept-IsFull (show_history-Kept env fd args s) v
  run_word-IsFull Word.room_history cmd args command =
      Kept-IsFull (show_room_history-Kept env fd c args s) v
  run_word-IsFull Word.mute cmd args command = Kept-IsFull (mute-Kept env fd c args s) v
  run_word-IsFull Word.unmute cmd args command = Kept-IsFull (unmute-Kept env fd c args s) v
  run_word-IsFull Word.kick cmd args command = Kept-IsFull (kick-Kept env fd c args s) v
  run_word-IsFull Word.transfer cmd args command = Kept-IsFull (transfer-Kept env fd c args s) v
  run_word-IsFull Word.file cmd args command = Kept-IsFull (file_to_room-Kept env fd c args s) v
  run_word-IsFull Word.unknown cmd args command =
      Kept-IsFull (unknown_command-Kept env fd c cmd command s) v

module _ (env : Env) (fd : ℕ) (s : Server) (v : IsFull s) where
  run_command-IsFull : (l : Bytes) → LeavesFull (run_command env fd l s)
  unfolding run_command handle_command get_client_by_socket
  run_command-IsFull l = elim (Option-cases (lookup fd s.clients)) [
    | inl e ↦ rw (e, run_command) v
    | inr (c, e) ↦ rw (e, run_command) (run_word-IsFull env fd c s v _ _ _ l)
  ]

  run_kind-IsFull : (k : Kind) (l : Bytes) → LeavesFull (run_kind k env fd l s)
  unfolding run_kind
  run_kind-IsFull Kind.command l = run_command-IsFull l
  run_kind-IsFull Kind.message l = Kept-IsFull (handle_message-Kept env fd s l) v
  run_kind-IsFull Kind.file_transfer l = Kept-IsFull (handle_file_transfer-Kept fd l s) v
  run_kind-IsFull Kind.file_request l = Kept-IsFull (handle_file_request-Kept fd l s) v
  run_kind-IsFull Kind.file_response l = Kept-IsFull (handle_file_response-Kept fd l s) v
  run_kind-IsFull Kind.file_data l = Kept-IsFull (handle_file_data-Kept fd l s) v
  run_kind-IsFull Kind.read_receipt l = Kept-IsFull (handle_read_receipt-Kept l s) v
  run_kind-IsFull Kind.plain l = Kept-IsFull (handle_plain-Kept env fd s l) v

  handle_line-IsFull : (l : Bytes) → LeavesFull (handle_line env fd l s)
  unfolding handle_line
  handle_line-IsFull l = if_all LeavesFull (is_empty l) _ _ v (run_kind-IsFull (kind_of l) l)

step-IsFull : (i : Input) (s : Server) → IsFull s → LeavesFull (step i s)
unfolding step
step-IsFull (connection fd ip_address port now) s v =
    Kept-IsFull (accept-Kept fd s ip_address port now) v
step-IsFull (line env fd l) s v = handle_line-IsFull env fd s v l
step-IsFull (end env fd) s v = Kept-IsFull (remove_client-Kept env fd fd s) v

then_full :
    (is : List Input) (o : Outcome Server)
    → ((s : Server) → IsFull s → LeavesFull (run is s))
    → LeavesFull o
    → LeavesFull (o >>= run is)
then_full is (returns s) f v = f s v
then_full is (stops why s) f v = v

-- However long a server runs, and also where it stops, each room stands under its own name, has at
-- least one member, and no member twice, if this was so at the beginning.
pub run-IsFull : (is : List Input) (s : Server) → IsFull s → LeavesFull (run is s)
unfolding run
run-IsFull [] s v = v
run-IsFull (i ∷ is) s v = then_full is (step i s) (run-IsFull is) (step-IsFull i s v)
