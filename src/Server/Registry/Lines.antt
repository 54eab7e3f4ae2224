-- ===== src/Server/Registry/Lines.antt =====
-- src/server.cpp: clients_ and name_to_socket_ over one line of a client.
use smallchat.Base.{
  ℕ, ◌≡◌, refl, Bool, true, false, some, Bytes, arith, inl, inr, Option-cases, if◌then◌else◌,
  lookup, insert, nat_eq, bytes_eq, is_empty, ltb, not,
}
use smallchat.Codec.Message.{ChatMessage, blank, decode}
use smallchat.Server.Command.Words.{Word}
use smallchat.Server.Command.{run_word, handle_command}
use smallchat.Server.Line.{Kind, kind_of, run_command, run_kind, handle_line}
use smallchat.Server.Messages.{
  allowed, deliver_message, deliver_private, deliver_room, say_in_room, say_to_all, handle_message,
  say, handle_plain, not_logged_in, still_muted,
}
use smallchat.Server.Registry.Commands.{
  Leaves, nick-Names, login-Names, register-Names, create_room-Moves, join_room-Moves,
  leave_room-Moves,
}
use smallchat.Server.Registry.Same.{
  Same, broadcast-Same, add_message_to_history-Same, whisper-Same, unknown_command-Same,
  list_users-Same, help-Same, info-Same, list_rooms-Same, list_members-Same, show_history-Same,
  show_room_history-Same, transfer-Same, file_to_room-Same, handle_file_transfer-Same,
  handle_file_request-Same, handle_file_response-Same, handle_file_data-Same,
  handle_read_receipt-Same,
}
use smallchat.Server.Registry.Tables.{
  IsConsistent, Similar-of_Same, Similar-trans, Similar-IsConsistent, Same-IsConsistent,
  put-Similar, sent-IsConsistent,
}
use smallchat.Server.Send.{get_client_by_socket}
use smallchat.Server.State.{ClientInfo, Server, Env}
use smallchat.Server.Registry.Steps.{
  Names-IsConsistent, Moves-IsConsistent, mute-IsConsistent, unmute-IsConsistent, kick-IsConsistent,
  quit-IsConsistent,
}

pub if_all : {A : Type 0} (P : A → Type 0) (b : Bool) (x y : A) → P x → P y → P (if b then x else y)
if_all P true x y px py = px
if_all P false x y px py = py

module _ (env : Env) (fd : ℕ) where
  pub deliver_message-Same :
      (l : Bytes) (m : ChatMessage) (t : Server) → Same t (deliver_message fd l m t)
  unfolding deliver_message deliver_private deliver_room
  deliver_message-Same l m t = grind (arith, broadcast-Same, add_message_to_history-Same)

  pub say-Same : (l : Bytes) (c : ClientInfo) (t : Server) → Same t (say env fd l c t)
  unfolding say say_in_room say_to_all
  say-Same l c t = grind (arith, broadcast-Same, add_message_to_history-Same)

module _ (env : Env) (fd : ℕ) (s : Server) (v : IsConsistent s) where
  -- What is allowed may be delivered from a state in which only the mute has ended.
  allowed-IsConsistent :
      (deliver : ClientInfo → Server → Server)
      → ((c : ClientInfo) (t : Server) → Same t (deliver c t))
      → IsConsistent (allowed env fd s deliver)
  unfolding allowed get_client_by_socket
  allowed-IsConsistent deliver keeps = elim (Option-cases (lookup fd s.clients)) [
    | inl e ↦ rw (e, allowed) (sent-IsConsistent s _ v)
    | inr (c, e) ↦ rw (e, allowed) (allowed_client c e)
  ]
    where
      freed :
          (c : ClientInfo)
          → lookup fd s.clients ≡ some c
          → IsConsistent (
              deliver c
                (record s { clients = insert fd (record c { is_muted = false }) s.clients }))
      freed c e =
          Similar-IsConsistent
            (Similar-trans (put-Similar s fd c _ e refl refl) (Similar-of_Same (keeps c _))) v

      allowed_client :
          (c : ClientInfo)
          → lookup fd s.clients ≡ some c
          → IsConsistent (
              if not c.is_logged_in
              then not_logged_in fd s
              else if not c.is_muted
              then deliver c s
              else if ltb c.mute_end_time env.now
              then deliver c
                  (record s { clients = insert fd (record c { is_muted = false }) s.clients })
              else still_muted fd s)
      allowed_client c e = if_all IsConsistent (not c.is_logged_in) _ _ (sent-IsConsistent s _ v) (
          if_all IsConsistent (not c.is_muted) _ _ (Same-IsConsistent (keeps c s) v) (
            if_all IsConsistent (ltb c.mute_end_time env.now) _ _ (freed c e)
              (sent-IsConsistent s _ v)))

  handle_plain-IsConsistent : (l : Bytes) → IsConsistent (handle_plain env fd l s)
  unfolding handle_plain
  handle_plain-IsConsistent l = allowed-IsConsistent (say env fd l) (say-Same env fd l)

  handle_message-IsConsistent : (l : Bytes) → IsConsistent (handle_message env fd l s)
  unfolding handle_message
  handle_message-IsConsistent l = elim (Option-cases (decode env.now l blank)) [
    | inl e ↦ rw (e, handle_message) (sent-IsConsistent s _ v)
    | inr (m, e) ↦
        rw (e, handle_message) (allowed-IsConsistent _ λ c t. deliver_message-Same env fd l m t)
  ]

module _ (env : Env) (fd : ℕ) (c : ClientInfo) (s : Server) (here : lookup fd s.clients ≡ some c)
    (v : IsConsistent s) where
  run_word-IsConsistent :
      (w : Word) (cmd args command : Bytes) → Leaves (run_word w env fd c cmd args command s)
  unfolding run_word
  run_word-IsConsistent Word.login cmd args command =
      Names-IsConsistent fd c s here v _ (login-Names env fd c args s)
  run_word-IsConsistent Word.register cmd args command =
      Names-IsConsistent fd c s here v _ (register-Names env fd c args s)
  run_word-IsConsistent Word.users cmd args command = Same-IsConsistent (list_users-Same fd s) v
  run_word-IsConsistent Word.whisper cmd args command =
      Same-IsConsistent (whisper-Same env fd c args s) v
  run_word-IsConsistent Word.help cmd args command = Same-IsConsistent (help-Same fd s) v
  run_word-IsConsistent Word.quit cmd args command = quit-IsConsistent env fd c s v
  run_word-IsConsistent Word.nick cmd args command =
      Names-IsConsistent fd c s here v _ (nick-Names fd c args s)
  run_word-IsConsistent Word.info cmd args command = Same-IsConsistent (info-Same fd s) v
  run_word-IsConsistent Word.register_again cmd args command =
      Names-IsConsistent fd c s here v _ (register-Names env fd c args s)
  run_word-IsConsistent Word.create_room cmd args command =
      Moves-IsConsistent fd c s here v _ (create_room-Moves fd c s env args)
  run_word-IsConsistent Word.join_room cmd args command =
      Moves-IsConsistent fd c s here v _ (join_room-Moves fd c s env args)
  run_word-IsConsistent Word.leave_room cmd args command =
      Moves-IsConsistent fd c s here v _ (leave_room-Moves fd c s)
  run_word-IsConsistent Word.rooms cmd args command = Same-IsConsistent (list_rooms-Same fd s) v
  run_word-IsConsistent Word.room_members cmd args command =
      Same-IsConsistent (list_members-Same fd c s) v
  run_word-IsConsistent Word.history cmd args command =
      Same-IsConsistent (show_history-Same env fd args s) v
  run_word-IsConsistent Word.room_history cmd args command =
      Same-IsConsistent (show_room_history-Same env fd c args s) v
  run_word-IsConsistent Word.mute cmd args command = mute-IsConsistent env fd s v c args
  run_word-IsConsistent Word.unmute cmd args command = unmute-IsConsistent env fd s v c args
  run_word-IsConsistent Word.kick cmd args command = kick-IsConsistent env fd c s v args
  run_word-IsConsistent Word.transfer cmd args command =
      Same-IsConsistent (transfer-Same env fd c args s) v
  run_word-IsConsistent Word.file cmd args command =
      Same-IsConsistent (file_to_room-Same env fd c args s) v
  run_word-IsConsistent Word.unknown cmd args command =
      Same-IsConsistent (unknown_command-Same env fd c cmd command s) v

module _ (env : Env) (fd : ℕ) (s : Server) (v : IsConsistent s) where
  run_command-IsConsistent : (l : Bytes) → Leaves (run_command env fd l s)
  unfolding run_command handle_command get_client_by_socket
  run_command-IsConsistent l = elim (Option-cases (lookup fd s.clients)) [
    | inl e ↦ rw (e, run_command) v
    | inr (c, e) ↦ rw (e, run_command) (run_word-IsConsistent env fd c s e v _ _ _ l)
  ]

  run_kind-IsConsistent : (k : Kind) (l : Bytes) → Leaves (run_kind k env fd l s)
  unfolding run_kind
  run_kind-IsConsistent Kind.command l = run_command-IsConsistent l
  run_kind-IsConsistent Kind.message l = handle_message-IsConsistent env fd s v l
  run_kind-IsConsistent Kind.file_transfer l =
      Same-IsConsistent (handle_file_transfer-Same fd l s) v
  run_kind-IsConsistent Kind.file_request l = Same-IsConsistent (handle_file_request-Same fd l s) v
  run_kind-IsConsistent Kind.file_response l =
      Same-IsConsistent (handle_file_response-Same fd l s) v
  run_kind-IsConsistent Kind.file_data l = Same-IsConsistent (handle_file_data-Same fd l s) v
  run_kind-IsConsistent Kind.read_receipt l = Same-IsConsistent (handle_read_receipt-Same l s) v
  run_kind-IsConsistent Kind.plain l = handle_plain-IsConsistent env fd s v l

  -- A line leaves the tables consistent, whatever it says, also where the server stops at it.
  pub handle_line-IsConsistent : (l : Bytes) → Leaves (handle_line env fd l s)
  unfolding handle_line
  handle_line-IsConsistent l =
      if_all Leaves (is_empty l) _ _ v (run_kind-IsConsistent (kind_of l) l)
