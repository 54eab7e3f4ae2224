-- ===== src/Server/Messages/Muted.antt =====
-- src/server.cpp: the lines of a muted client.
use smallchat.Base.{
  ℕ, ◌≡◌, true, false, some, Bytes, codes, arith, ◌⊎◌, ltb, is_empty, lookup, nat_eq, bytes_eq,
}
use smallchat.Codec.Frames.{encode_error}
use smallchat.Codec.Message.{encode, MessageType}
use smallchat.Server.Command.{run_word, handle_command}
use smallchat.Server.Command.Words
use smallchat.Server.Command.Words.{Word}
use smallchat.Server.History.{add_message_to_history}
use smallchat.Server.Line.{Kind, kind_of, run_command, run_kind, handle_line}
use smallchat.Server.Messages.{allowed, handle_message, handle_plain, still_muted}
use smallchat.Server.Send.{send, send_each, notify, get_client_by_socket, room_sockets}
use smallchat.Server.State.{ClientInfo, Server, Env, returns}
use smallchat.Server.Talk.{message_of, unknown_command}
use smallchat.Std.Stream.{next_word}

module _ (env : Env) (fd : ℕ) (c : ClientInfo) (s : Server) (here : lookup fd s.clients ≡ some c)
    (inside : c.is_logged_in ≡ true) (silenced : c.is_muted ≡ true) where
  pub allowed_muted :
      ltb c.mute_end_time env.now ≡ false
      → (deliver : ClientInfo → Server → Server) → allowed env fd s deliver ≡ still_muted fd s
  unfolding allowed get_client_by_socket
  allowed_muted lasts deliver = ground arith

  -- While the mute of a logged-in client lasts, its line, if it is not empty and neither a command nor
  -- one of the file and receipt lines, has one effect: an error is sent to the client, that it is
  -- muted or that the line has a wrong format.
  pub handle_line_muted :
      (l : Bytes)
      → ltb c.mute_end_time env.now ≡ false
      → is_empty l ≡ false
      → (kind_of l ≡ Kind.message) ⊎ (kind_of l ≡ Kind.plain)
      → (handle_line env fd l s ≡ returns (still_muted fd s))
        ⊎ (handle_line env fd l s
            ≡ returns (send fd (encode_error (codes "Invalid message format")) s))
  unfolding handle_line run_kind handle_message handle_plain
  handle_line_muted l lasts some_text kind = grind (arith, allowed_muted lasts)

  -- The line of a client in a room with a command that the server does not know: a message to the room,
  -- whether the client is muted or not.
  pub handle_line_unknown :
      (l : Bytes)
      → is_empty l ≡ false
      → kind_of l ≡ Kind.command
      → Words.word_of (next_word l).0 ≡ Word.unknown
      → is_empty c.current_room ≡ false
      → handle_line env fd l s ≡ (
          let m = message_of env c c.current_room MessageType.room_message l in
          let recorded = notify m (add_message_to_history m s) in
          returns (send_each (room_sockets c.current_room recorded) (encode m) recorded))
  unfolding handle_line run_kind run_command handle_command run_word unknown_command
      get_client_by_socket
  handle_line_unknown l some_text kind unknown room = ground arith
