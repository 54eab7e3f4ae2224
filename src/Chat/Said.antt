-- ===== src/Chat/Said.antt =====
-- src/server.cpp, src/client.cpp and src/main_client.cpp: a plain line, from the socket of the one who
-- typed it to the screens of the others.
use smallchat.Base.{
  ℕ, ◌≡◌, refl, ◌∙◌, ap, true, false, some, List, [], ◌∷◌, ◌++◌, Bytes, codes, All, lookup, nat_eq,
  bytes_eq, is_empty,
}
use smallchat.Chat.{Sends, screen_behind}
use smallchat.Chat.Screen.{IsHearing, screen-text_of, text_of}
use smallchat.Chat.Sent.{Stands, say_to_all-Sends, say_in_room-Sends}
use smallchat.Client.Connection.{Connection}
use smallchat.Codec.Lines.Chunks.{IsText, joined}
use smallchat.Codec.Message.{encode, newline, MessageType}
use smallchat.Codec.Message.Line.{IsOneLine}
use smallchat.Server.Line.{handle_line, run_kind, kind_of, Kind}
use smallchat.Server.Messages.{handle_plain, allowed, say, say_to_all, say_in_room}
use smallchat.Server.Send.{get_client_by_socket, room_sockets}
use smallchat.Server.State.{ClientInfo, ChatRoom, Server, Env, returns}
use smallchat.Server.Talk.{message_of}
use smallchat.Terminal.{Terminal, get_prompt}
use smallchat.Utils.{replace_emojis}

-- A client that may speak: logged in and not muted.
pub record IsSpeaker (s : Server) (fd : ℕ) (c : ClientInfo) : Type 0 where
  pub there : lookup fd s.clients ≡ some c
  pub logged_in : c.is_logged_in ≡ true
  pub free : c.is_muted ≡ false

-- The line on the screen of the others, and the prompt behind it.
abbrev pub said_line : Env → ClientInfo → Bytes → Terminal → Bytes
said_line env c line t =
    13
    ∷ ((codes "[" ++ (c.name ++ (codes "]: " ++ replace_emojis env.emojis line)))
        ++ (newline ∷ get_prompt t))

module _ (env : Env) (fd : ℕ) (line : Bytes) (c : ClientInfo) (s : Server) where
  allowed-IsSpeaker :
      (deliver : ClientInfo → Server → Server)
      → IsSpeaker s fd c
      → allowed env fd s deliver ≡ deliver c s
  unfolding allowed get_client_by_socket
  allowed-IsSpeaker deliver v = rw (v.there, v.logged_in, v.free, allowed) refl

  handle_line-say :
      is_empty line ≡ false
      → kind_of line ≡ Kind.plain
      → IsSpeaker s fd c
      → handle_line env fd line s ≡ returns (say env fd line c s)
  unfolding handle_line run_kind handle_plain
  handle_line-say some_text is_plain v =
      rw (some_text, is_plain) (ap returns (allowed-IsSpeaker (say env fd line) v))

module _ (env : Env) (fd other : ℕ) (line : Bytes) (c d : ClientInfo) (s : Server) where
  -- A line that is no command and no protocol line, from a client that is logged in, not muted and in
  -- no room: the server sends its frame to every client it has, and each client program that listens
  -- there, in whatever chunks the frame comes, shows the name of the sender and the text, with its emojis
  -- replaced, and the prompt. The name and the message id hold no newline, the name no bar, the text is
  -- made of bytes, and no chunk holds a NUL byte.
  pub handle_line-screen :
      is_empty line ≡ false
      → kind_of line ≡ Kind.plain
      → IsSpeaker s fd c
      → c.current_room ≡ []
      → IsOneLine (message_of env c [] MessageType.broadcast line)
      → lookup other s.clients ≡ some d
      → (now : ℕ) (chunks : List Bytes) (conn : Connection) (t : Terminal) → IsHearing conn
      → All IsText chunks
      → joined chunks ≡ encode (message_of env c [] MessageType.broadcast line)
      → (v : Server) × ((handle_line env fd line s ≡ returns v)
          × (Sends other (encode (message_of env c [] MessageType.broadcast line)) s v
              × (screen_behind now chunks conn t
                  ≡ some (t.shown ++ (said_line env c line t ∷ [])))))
  unfolding say text_of
  handle_line-screen text plain v no_room whole there now chunks conn t hears plain_chunks e =
      let m = message_of env c [] MessageType.broadcast line in
      (
        say_to_all env c line s,
        (
          handle_line-say env fd line c s text plain v ∙ rw (no_room, say) refl,
          (
            say_to_all-Sends env c d other line s there,
            screen-text_of now m conn chunks t hears whole plain_chunks e,
          ),
        ),
      )

  -- A line that is no command and no protocol line, from a client that is logged in, not muted and in a
  -- room of the server: the server sends its frame to each socket that the name of a member leads to,
  -- and each client program that listens there, in whatever chunks the frame comes, shows the name of
  -- the sender and the text, with its emojis replaced, and the prompt. The message is one line of the
  -- wire format, and no chunk holds a NUL byte.
  pub handle_line-room_screen :
      (room : ChatRoom)
      → is_empty line ≡ false
      → kind_of line ≡ Kind.plain
      → IsSpeaker s fd c
      → is_empty c.current_room ≡ false
      → lookup c.current_room s.rooms ≡ some room
      → IsOneLine (message_of env c c.current_room MessageType.room_message line)
      → Stands other (room_sockets c.current_room s)
      → (now : ℕ) (chunks : List Bytes) (conn : Connection) (t : Terminal) → IsHearing conn
      → All IsText chunks
      → joined chunks ≡ encode (message_of env c c.current_room MessageType.room_message line)
      → (v : Server) × ((handle_line env fd line s ≡ returns v)
          × (Sends other
                (encode (message_of env c c.current_room MessageType.room_message line))
                s
                v
              × (screen_behind now chunks conn t
                  ≡ some (t.shown ++ (said_line env c line t ∷ [])))))
  unfolding say text_of
  handle_line-room_screen room text plain v in_room there whole stands now chunks conn t hears
        plain_chunks e =
      let m = message_of env c c.current_room MessageType.room_message line in
      (
        say_in_room env fd c line s,
        (
          handle_line-say env fd line c s text plain v ∙ rw (in_room, say) refl,
          (
            say_in_room-Sends env c fd other line room s there stands,
            screen-text_of now m conn chunks t hears whole plain_chunks e,
          ),
        ),
      )
