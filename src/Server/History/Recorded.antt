-- ===== src/Server/History/Recorded.antt =====
-- src/server.cpp: the calls that add a message to the histories, and the read receipts.
use smallchat.Base.{
  ℕ, refl, false, [], Bytes, arith, ◌⊎◌, inl, inr, Option-cases, if◌then◌else◌, lookup, insert,
  nat_eq, bytes_eq, is_empty, not, ltb,
}
use smallchat.Codec.Message.{ChatMessage, MessageType, decode, blank}
use smallchat.Server.History.{add_message_to_history, room_history}
use smallchat.Server.History.Bounds.{IsBounded, add_message_to_history-IsBounded}
use smallchat.Server.History.Quiet.{Quiet, broadcast-Quiet}
use smallchat.Server.Messages.{
  allowed, deliver_message, deliver_private, deliver_room, handle_message, handle_plain, say,
  say_in_room, say_to_all, not_logged_in, still_muted,
}
use smallchat.Server.Registry.Lines.{if_all}
use smallchat.Server.Send.{get_client_by_socket}
use smallchat.Server.State.{ClientInfo, Server, Env}
use smallchat.Server.Talk.{whisper, message_of, unknown_command}
use smallchat.Std.Stream.{next_word, rest_of_line}

pub Quiet-IsBounded : {s t : Server} → Quiet s t → IsBounded s → IsBounded t
unfolding room_history
Quiet-IsBounded e v = record {
  global = rw e.history v.global;
  rooms = λ room. rw e.rooms (v.rooms room);
}

Quiet-add :
    (m : ChatMessage) (s t : Server)
    → Quiet s t
    → Quiet (add_message_to_history m s) (add_message_to_history m t)
unfolding add_message_to_history room_history
Quiet-add m s t e = ground (arith, e.history, e.rooms)

-- The histories are as they were, or with one message more.
abbrev Records : ChatMessage → Server → Server → Type 0
Records m s t = Quiet s t ⊎ Quiet (add_message_to_history m s) t

Records-IsBounded : (m : ChatMessage) {s t : Server} → Records m s t → IsBounded s → IsBounded t
Records-IsBounded m (inl e) v = Quiet-IsBounded e v
Records-IsBounded m {s = s} (inr e) v = Quiet-IsBounded e (add_message_to_history-IsBounded m s v)

module _ (env : Env) (fd : ℕ) (c : ClientInfo) (s : Server) (v : IsBounded s) where
  pub whisper-IsBounded : (args : Bytes) → IsBounded (whisper env fd c args s)
  unfolding whisper
  whisper-IsBounded args =
      let m =
        message_of env c (next_word args).0 MessageType.private (rest_of_line (next_word args).1) in
      let recorded : Records m s (whisper env fd c args s) = ground arith in
      Records-IsBounded m recorded v

  pub unknown_command-IsBounded :
      (cmd command : Bytes) → IsBounded (unknown_command env fd c cmd command s)
  unfolding unknown_command
  unknown_command-IsBounded cmd command =
      let m = message_of env c c.current_room MessageType.room_message command in
      let recorded : Records m s (unknown_command env fd c cmd command s) = ground arith in
      Records-IsBounded m recorded v

  say_in_room-IsBounded : (l : Bytes) → IsBounded (say_in_room env fd c l s)
  unfolding say_in_room
  say_in_room-IsBounded l =
      let m = message_of env c c.current_room MessageType.room_message l in
      let recorded : Records m s (say_in_room env fd c l s) = grind (arith, Quiet-add m) in
      Records-IsBounded m recorded v

  say_to_all-IsBounded : (l : Bytes) → IsBounded (say_to_all env c l s)
  unfolding say_to_all
  say_to_all-IsBounded l =
      let m = message_of env c [] MessageType.broadcast l in
      let recorded : Records m s (say_to_all env c l s) = grind (arith, broadcast-Quiet) in
      Records-IsBounded m recorded v

  say-IsBounded : (l : Bytes) → IsBounded (say env fd l c s)
  unfolding say
  say-IsBounded l =
      if_all IsBounded (is_empty c.current_room) _ _ (say_to_all-IsBounded l)
        (say_in_room-IsBounded l)

  deliver_message-IsBounded : (l : Bytes) (m : ChatMessage) → IsBounded (deliver_message fd l m s)
  unfolding deliver_message deliver_private deliver_room
  deliver_message-IsBounded l m =
      let recorded : Records m s (deliver_message fd l m s) =
        grind (arith, broadcast-Quiet, Quiet-add m) in
      Records-IsBounded m recorded v

module _ (env : Env) (fd : ℕ) (s : Server) (v : IsBounded s) where
  allowed-IsBounded :
      (deliver : ClientInfo → Server → Server)
      → ((c : ClientInfo) (t : Server) → IsBounded t → IsBounded (deliver c t))
      → IsBounded (allowed env fd s deliver)
  unfolding allowed get_client_by_socket
  allowed-IsBounded deliver keeps = elim (Option-cases (lookup fd s.clients)) [
    | inl e ↦ rw (e, allowed) (Quiet-IsBounded (record { history = refl; rooms = refl }) v)
    | inr (c, e) ↦ rw (e, allowed) (allowed_client c)
  ]
    where
      allowed_client :
          (c : ClientInfo)
          → IsBounded (
              if not c.is_logged_in
              then not_logged_in fd s
              else if not c.is_muted
              then deliver c s
              else if ltb c.mute_end_time env.now
              then deliver c
                  (record s { clients = insert fd (record c { is_muted = false }) s.clients })
              else still_muted fd s)
      allowed_client c =
          let still : (t : Server) → Quiet s t → IsBounded t = λ t e. Quiet-IsBounded e v in
          if_all IsBounded (not c.is_logged_in) _ _
            (still _ (record { history = refl; rooms = refl }))
            (if_all IsBounded (not c.is_muted) _ _ (keeps c s v) (
              if_all IsBounded (ltb c.mute_end_time env.now) _ _
                (keeps c _ (still _ (record { history = refl; rooms = refl })))
                (still _ (record { history = refl; rooms = refl }))))

  pub handle_plain-IsBounded : (l : Bytes) → IsBounded (handle_plain env fd l s)
  unfolding handle_plain
  handle_plain-IsBounded l = allowed-IsBounded (say env fd l) λ c t b. say-IsBounded env fd c t b l

  pub handle_message-IsBounded : (l : Bytes) → IsBounded (handle_message env fd l s)
  unfolding handle_message
  handle_message-IsBounded l = elim (Option-cases (decode env.now l blank)) [
    | inl e ↦ rw (e, handle_message) (Quiet-IsBounded (record { history = refl; rooms = refl }) v)
    | inr (m, e) ↦
        rw (e, handle_message)
          (allowed-IsBounded _ λ c t b. deliver_message-IsBounded env fd c t b l m)
  ]
