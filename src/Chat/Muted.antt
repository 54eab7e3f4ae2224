-- ===== src/Chat/Muted.antt =====
-- src/server.cpp, src/client.cpp and src/main_client.cpp: a muted client in a room, and what its lines
-- come to on the screens of the others.
use smallchat.Base.{
  ℕ, ◌≡◌, refl, ap, sym, subst, true, false, some, List, [], ◌∷◌, ◌++◌, Bytes, All, arith, ltb,
  lookup, nat_eq, bytes_eq, is_empty,
}
use smallchat.Chat.{Sends, screen_behind}
use smallchat.Chat.Said.{said_line}
use smallchat.Chat.Screen.{IsHearing, screen-text_of, text_of}
use smallchat.Chat.Sent.{
  Stands, Sends-earlier, Sends-same, send_each-Sends, add_message_to_history-tables,
}
use smallchat.Client.Connection.{Connection}
use smallchat.Codec.Lines.Chunks.{IsText, joined}
use smallchat.Codec.Message.{ChatMessage, encode, MessageType}
use smallchat.Codec.Message.Line.{IsOneLine}
use smallchat.Server.Command.Words
use smallchat.Server.Command.Words.{Word}
use smallchat.Server.History.{add_message_to_history}
use smallchat.Server.Line.{handle_line, run_kind, kind_of, Kind}
use smallchat.Server.Messages.{handle_plain, say, still_muted}
use smallchat.Server.Messages.Muted.{allowed_muted, handle_line_unknown}
use smallchat.Server.Registry.Lines.{if_all}
use smallchat.Server.Send.{notify, emit, send_each, room_sockets}
use smallchat.Server.State.{ClientInfo, notifies, Server, Env, returns}
use smallchat.Server.Talk.{message_of}
use smallchat.Std.Stream.{next_word}
use smallchat.Terminal.{Terminal}

-- A client that is logged in, in a room, and whose mute lasts.
pub record IsSilenced (env : Env) (s : Server) (fd : ℕ) (c : ClientInfo) : Type 0 where
  pub there : lookup fd s.clients ≡ some c
  pub logged_in : c.is_logged_in ≡ true
  pub muted : c.is_muted ≡ true
  pub lasts : ltb c.mute_end_time env.now ≡ false
  pub in_room : is_empty c.current_room ≡ false

-- What an unknown command leaves on record before it is sent.
abbrev recorded : ChatMessage → Server → Server
recorded m s = notify m (add_message_to_history m s)

recorded-room_sockets :
    (m : ChatMessage) (room : Bytes) (s : Server)
    → room_sockets room (recorded m s) ≡ room_sockets room s
unfolding room_sockets add_message_to_history
recorded-room_sockets m room s = ground arith

recorded-Sends :
    (fd : ℕ) (frame : Bytes) (m : ChatMessage) (fds : List ℕ) (s : Server)
    → Stands fd fds
    → Sends fd frame s (send_each fds frame (recorded m s))
recorded-Sends fd frame m fds s stands =
    let v = add_message_to_history m s in
    let told = emit (notifies m) v in
    Sends-same fd frame s v (send_each fds frame (recorded m s))
      (add_message_to_history-tables m s).0
      (if_all (λ u. Sends fd frame v (send_each fds frame u)) v.message_callback told v
        (Sends-earlier fd frame v told (send_each fds frame told) (notifies m ∷ []) refl
          (send_each-Sends fd fds frame told stands))
        (send_each-Sends fd fds frame v stands))

module _ (env : Env) (fd other : ℕ) (c : ClientInfo) (s : Server) where
  handle_line-still_muted :
      (text : Bytes)
      → is_empty text ≡ false
      → kind_of text ≡ Kind.plain
      → IsSilenced env s fd c
      → handle_line env fd text s ≡ returns (still_muted fd s)
  unfolding handle_line run_kind handle_plain
  handle_line-still_muted text some_text plain v =
      rw (some_text, plain)
        (ap returns
          (allowed_muted env fd c s v.there v.logged_in v.muted v.lasts (say env fd text)))

  -- The mute of a client in a room does not keep it from the screens of the others. While it lasts, a
  -- plain line of the client leads to an error that goes to the client, and to nothing else; but a line
  -- with a command that the server does not know is sent as a message to each socket that the name of a
  -- member leads to, and each client program that listens there, in whatever chunks the frame comes,
  -- shows the name of the client and the whole line, with its emojis replaced, and the prompt. The
  -- client is logged in, its message is one line of the wire format, and no chunk holds a NUL byte.
  pub handle_line-unknown_screen :
      (text line : Bytes)
      → IsSilenced env s fd c
      → is_empty text ≡ false
      → kind_of text ≡ Kind.plain
      → is_empty line ≡ false
      → kind_of line ≡ Kind.command
      → Words.word_of (next_word line).0 ≡ Word.unknown
      → IsOneLine (message_of env c c.current_room MessageType.room_message line)
      → Stands other (room_sockets c.current_room s)
      → (now : ℕ) (chunks : List Bytes) (conn : Connection) (t : Terminal) → IsHearing conn
      → All IsText chunks
      → joined chunks ≡ encode (message_of env c c.current_room MessageType.room_message line)
      → (handle_line env fd text s ≡ returns (still_muted fd s))
        × ((v : Server) × ((handle_line env fd line s ≡ returns v)
              × (Sends other
                    (encode (message_of env c c.current_room MessageType.room_message line))
                    s
                    v
                  × (screen_behind now chunks conn t
                      ≡ some (t.shown ++ (said_line env c line t ∷ []))))))
  unfolding text_of
  handle_line-unknown_screen text line v some_text plain some_line command unknown whole stands now
        chunks conn t hears plain_chunks e =
      let m = message_of env c c.current_room MessageType.room_message line in
      let sockets = room_sockets c.current_room (recorded m s) in
      (
        handle_line-still_muted text some_text plain v,
        (
          send_each sockets (encode m) (recorded m s),
          (
            handle_line_unknown env fd c s v.there v.logged_in v.muted line some_line command
                unknown v.in_room,
            (
              recorded-Sends other (encode m) m sockets s
                  (subst (Stands other) (sym (recorded-room_sockets m c.current_room s)) stands),
              screen-text_of now m conn chunks t hears whole plain_chunks e,
            ),
          ),
        ),
      )
