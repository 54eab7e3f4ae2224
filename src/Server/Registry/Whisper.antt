-- ===== src/Server/Registry/Whisper.antt =====
-- src/server.cpp: who gets a /whisper, in the states that a server comes to.
use smallchat.Base.{
  ℕ, ◌≡◌, refl, Bool-cases, is_empty, ◌||◌, ap, ◌∙◌, ◌⊎◌, inl, inr, some, [], ◌∷◌, ◌++◌,
  append_assoc, Bytes, codes, arith, lookup, nat_eq, bytes_eq, Option-cases,
}
use smallchat.Codec.Frames.{encode_error}
use smallchat.Codec.Message.{ChatMessage, encode, MessageType}
use smallchat.Server.History.{add_message_to_history}
use smallchat.Server.Registry.Reach.{Reaches, reachable-IsConsistent}
use smallchat.Server.Registry.Tables.{IsConsistent, view}
use smallchat.Server.Send.{get_client_by_name}
use smallchat.Server.State.{ClientInfo, sends, Server, Env}
use smallchat.Server.Talk.{whisper, whispered, message_of}
use smallchat.Std.Stream.{next_word, rest_of_line}

-- The target of a name has it, and stands under its socket.
target-view :
    (s : Server) (name : Bytes) (target : ClientInfo)
    → IsConsistent s
    → get_client_by_name name s ≡ some target
    → view s target.socket_fd ≡ some (name, target.socket_fd)
unfolding get_client_by_name
target-view s name target v e = elim (Option-cases (lookup name s.name_to_socket)) [
  | inl missing ↦ absurd (ground arith)
  | inr (k, there) ↦ ground (arith, v.registered name k)
]

add_message_to_history-out :
    (m : ChatMessage) (s : Server) → (add_message_to_history m s).out ≡ s.out
unfolding add_message_to_history
add_message_to_history-out m s = ground arith

-- The frame that a /whisper with this text leads to.
abbrev pub frame_of : Env → ClientInfo → Bytes → Bytes
frame_of env c args =
    let (name, rest) = next_word args in
    encode (message_of env c name MessageType.private (rest_of_line rest))

pub whispered-out :
    (env : Env) (fd : ℕ) (c target : ClientInfo) (name msg : Bytes) (s : Server)
    → let m = encode (message_of env c name MessageType.private msg) in
      (whispered env fd c target name msg s).out
      ≡ s.out ++ (sends target.socket_fd m ∷ sends fd m ∷ [])
unfolding whispered
whispered-out env fd c target name msg s =
    let m = message_of env c name MessageType.private msg in
    append_assoc (add_message_to_history m s).out (sends target.socket_fd (encode m) ∷ [])
      (sends fd (encode m) ∷ [])
    ∙ ap (λ o. o ++ (sends target.socket_fd (encode m) ∷ sends fd (encode m) ∷ []))
        (add_message_to_history-out m s)

-- In every state that a server without clients comes to, /whisper sends either one answer to the sender
-- and nothing else, or the message with its text to one client, who has the name that was asked for,
-- and to the sender. New connections come with a socket that no client has.
pub whisper-target :
    (env : Env) (fd : ℕ) (c : ClientInfo) (args : Bytes) (s : Server)
    → Reaches s
    → ((answer : Bytes) × ((whisper env fd c args s).out ≡ s.out ++ (sends fd answer ∷ [])))
      ⊎ ((k : ℕ) × ((view s k ≡ some ((next_word args).0, k))
            × ((whisper env fd c args s).out
                ≡ s.out ++ (sends k (frame_of env c args) ∷ sends fd (frame_of env c args) ∷ []))))
unfolding whisper
whisper-target env fd c args s r =
    let name = (next_word args).0 in
    let msg = rest_of_line (next_word args).1 in
    elim (Bool-cases (is_empty name || is_empty msg)) [
      | inl bare ↦ inl (
        encode_error (codes "Usage: /whisper <name> <message> or /w <name> <message>"),
        rw bare refl,
      )
      | inr given ↦ elim (Option-cases (get_client_by_name name s)) [
        | inl missing ↦
            inl (encode_error (codes "User not found: " ++ name), rw (given, missing) refl)
        | inr (target, there) ↦ inr (
          target.socket_fd,
          (
            target-view s name target (reachable-IsConsistent s r) there,
            rw (given, there) (whispered-out env fd c target name msg s),
          ),
        )
      ]
    ]
