-- ===== src/Chat/Whispered.antt =====
-- src/server.cpp, src/client.cpp and src/main_client.cpp: a /whisper, from the server to the screens of
-- the two who are in it.
use smallchat.Base.{
  ℕ, ◌≡◌, refl, ◌∙◌, ap, false, some, List, [], ◌∷◌, ◌++◌, ◌||◌, Bytes, codes, All, nat_eq,
  bytes_eq, is_empty,
}
use smallchat.Chat.{Sends, screen_behind}
use smallchat.Chat.Screen.{IsHearing, screen-text_of, text_of}
use smallchat.Client.Connection.{Connection}
use smallchat.Codec.Lines.Chunks.{IsText, joined}
use smallchat.Codec.Message.{newline, MessageType}
use smallchat.Codec.Message.Line.{IsOneLine}
use smallchat.Server.Registry.Whisper.{frame_of, whispered-out}
use smallchat.Server.Send.{get_client_by_name}
use smallchat.Server.State.{ClientInfo, sends, Server, Env}
use smallchat.Server.Talk.{whisper, whispered, message_of}
use smallchat.Std.Stream.{next_word, rest_of_line}
use smallchat.Terminal.{Terminal, get_prompt}
use smallchat.Utils.{replace_emojis}

-- The line on the screen, and the prompt behind it.
abbrev pub whisper_line : Env → ClientInfo → Bytes → Bytes → Terminal → Bytes
whisper_line env c name text t =
    13
    ∷ ((codes "[Private] "
          ++ (c.name ++ (codes " -> " ++ (name ++ (codes ": " ++ replace_emojis env.emojis text)))))
        ++ (newline ∷ get_prompt t))

module _ (env : Env) (fd : ℕ) (c target : ClientInfo) (args : Bytes) (s : Server) where
  whisper-whispered :
      is_empty (next_word args).0 || is_empty (rest_of_line (next_word args).1) ≡ false
      → get_client_by_name (next_word args).0 s ≡ some target
      → whisper env fd c args s
        ≡ whispered env fd c target (next_word args).0 (rest_of_line (next_word args).1) s
  unfolding whisper
  whisper-whispered given there = rw (given, there) refl

  -- A /whisper with a name and a text, for a name that the server finds: the frame goes to the socket of
  -- that client and to the one who wrote it, and each client program that listens there, in whatever
  -- chunks the frame comes, shows it as a private message with the two names and the text, its emojis
  -- replaced, and the prompt. The names and the message id hold no newline, the names no bar, the text
  -- is made of bytes, and no chunk holds a NUL byte.
  pub whisper-screen :
      is_empty (next_word args).0 || is_empty (rest_of_line (next_word args).1) ≡ false
      → get_client_by_name (next_word args).0 s ≡ some target
      → IsOneLine (
          message_of env c (next_word args).0 MessageType.private (rest_of_line (next_word args).1))
      → (now : ℕ) (chunks : List Bytes) (conn : Connection) (t : Terminal) → IsHearing conn
      → All IsText chunks
      → joined chunks ≡ frame_of env c args
      → Sends target.socket_fd (frame_of env c args) s (whisper env fd c args s)
        × (Sends fd (frame_of env c args) s (whisper env fd c args s)
            × (screen_behind now chunks conn t
                ≡ some (
                    t.shown
                    ++ (whisper_line env c (next_word args).0 (rest_of_line (next_word args).1) t
                        ∷ []))))
  unfolding text_of
  whisper-screen given there whole now chunks conn t hears plain_chunks e =
      let name = (next_word args).0 in
      let text = rest_of_line (next_word args).1 in
      let frame = frame_of env c args in
      let out =
        ap (λ v. v.out) (whisper-whispered given there)
        ∙ whispered-out env fd c target name text s in
      (
        ([], (sends fd frame ∷ [], out)),
        (
          (sends target.socket_fd frame ∷ [], ([], out)),
          screen-text_of now (message_of env c name MessageType.private text) conn chunks t hears
              whole plain_chunks e,
        ),
      )
