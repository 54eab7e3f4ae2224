-- ===== src/Chat/Screen.antt =====
-- src/client.cpp and src/main_client.cpp: a message frame that a client receives.
use smallchat.Base.{
  ℕ, ◌≡◌, refl, ◌∙◌, ap, Bool, true, false, some, List, [], ◌∷◌, ◌++◌, map, Bytes, codes, All,
  arith, if◌then◌else◌,
}
use smallchat.Chat.{screen_behind}
use smallchat.Client.{ChatClient, message, process_message, show_message}
use smallchat.Client.Connection.{Connection, bytes, process_lines, receive_thread}
use smallchat.Client.Connection.Chunks.{receive_thread-lines}
use smallchat.Codec.Lines.Chunks.{IsText, joined}
use smallchat.Codec.Message.{ChatMessage, blank, encode, newline, MessageType}
use smallchat.Codec.Message.Line.{
  IsOneLine, message_line, encode-message_line, decode-message_line, message_line-Lacks,
}
use smallchat.Codec.Message.RoundTrip.{received}
use smallchat.Server.History.{has_type}
use smallchat.Terminal.{Terminal, on_shown_all, on_shown, on_message, print_line, get_prompt}

-- A client that runs, is connected, and has a callback for messages.
pub record IsHearing (c : Connection) : Type 0 where
  pub on : c.client.running ≡ true
  pub up : c.client.connected ≡ true
  pub set : c.client.message_callback ≡ true

-- What a message looks like on the screen.
unfoldable pub text_of : ChatMessage → Bytes
text_of m =
    if has_type m MessageType.private
    then codes "[Private] "
      ++ (m.sender ++ (codes " -> " ++ (m.receiver ++ (codes ": " ++ m.content))))
    else codes "[" ++ (m.sender ++ (codes "]: " ++ m.content))

process_message-message_line :
    (client : ChatClient) (now : ℕ) (m : ChatMessage)
    → IsOneLine m
    → client.message_callback ≡ true
    → process_message client now (message_line m) ≡ some (message (received now m blank) ∷ [])
unfolding process_message show_message
process_message-message_line client now m v set =
    ground (arith, decode-message_line now m blank v, set)

either :
    (b : Bool) (x y : Bytes) (t : Terminal)
    → (if b then print_line x t else print_line y t) ≡ print_line (if b then x else y) t
either true x y t = refl
either false x y t = refl

on_message-text_of :
    (now : ℕ) (m : ChatMessage) (t : Terminal)
    → on_message (received now m blank) t ≡ print_line (text_of m) t
unfolding on_message text_of
on_message-text_of now m t = either (has_type m MessageType.private) _ _ t

module _ (now : ℕ) (m : ChatMessage) (c : Connection) (chunks : List Bytes) where
  receive_thread-message :
      IsHearing c
      → IsOneLine m
      → All IsText chunks
      → joined chunks ≡ encode m
      → receive_thread (map (λ b. bytes now b) chunks) c
        ≡ some (message (received now m blank) ∷ [], c)
  unfolding process_lines
  receive_thread-message v whole plain e =
      receive_thread-lines now c (message_line m ∷ []) chunks v.on v.up
        (message_line-Lacks m whole, tt) plain (e ∙ encode-message_line m)
      ∙ rw (process_message-message_line c.client now m whole v.set) refl

  pub screen-text_of :
      (t : Terminal)
      → IsHearing c
      → IsOneLine m
      → All IsText chunks
      → joined chunks ≡ encode m
      → screen_behind now chunks c t
        ≡ some (t.shown ++ ((13 ∷ (text_of m ++ (newline ∷ get_prompt t))) ∷ []))
  unfolding on_shown_all on_shown print_line
  screen-text_of t v whole plain e =
      rw (receive_thread-message v whole plain e)
        (ap (λ u. some u.shown) (on_message-text_of now m t))
