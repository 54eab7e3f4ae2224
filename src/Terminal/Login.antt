-- ===== src/Terminal/Login.antt =====
-- src/main_client.cpp with src/client.cpp: the server's answers to /login, /register and /nick on their
-- way from the socket to the prompt.
use smallchat.Base.{
  ℕ, zero, suc, ◌≡◌, refl, ◌∙◌, subst, true, Option, none, some, List, [], ◌∷◌, ◌++◌, map, Bytes,
  codes, All, Lacks, cut, arith, equal, equal_iff, length, take, Bool-cases, inl, inr, ◌>>=◌,
}
use smallchat.Client.{
  ChatClient, success_text, process_message, show_other, show_typed, show_ok, file_notice,
}
use smallchat.Client.Connection.{Connection, bytes, process_lines, receive_thread}
use smallchat.Client.Connection.Chunks.{receive_thread-lines}
use smallchat.Codec.Frames.{encode_success}
use smallchat.Codec.Lines.Chunks.{IsText, joined}
use smallchat.Codec.Message.{newline}
use smallchat.Terminal.{
  Terminal, behind, on_success, registered, on_shown, on_shown_all, print_line, get_prompt,
}

-- An OK line leads to the success callback.
process_message-ok :
    (client : ChatClient) (now : ℕ) (text : Bytes)
    → client.success_callback ≡ true
    → process_message client now (codes "OK|" ++ text) ≡ some (success_text text ∷ [])
unfolding process_message show_other show_typed show_ok file_notice cut
process_message-ok client now text set = ground arith

line-Lacks : (text : Bytes) → Lacks newline text → Lacks newline (codes "OK|" ++ text)
line-Lacks text h = (ground arith, (ground arith, (ground arith, h)))

-- However the answer of the server to a command comes in, the client shows its text.
receive_thread-success :
    (now : ℕ) (c : Connection) (text : Bytes) (chunks : List Bytes)
    → c.client.running ≡ true
    → c.client.connected ≡ true
    → c.client.success_callback ≡ true
    → Lacks newline text
    → All IsText chunks
    → joined chunks ≡ encode_success text
    → receive_thread (map (λ b. bytes now b) chunks) c ≡ some (success_text text ∷ [], c)
unfolding encode_success process_lines
receive_thread-success now c text chunks on up set whole plain e =
    receive_thread-lines now c ((codes "OK|" ++ text) ∷ []) chunks on up (line-Lacks text whole, tt)
      plain e
    ∙ rw (process_message-ok c.client now text set) refl

take-Lacks : (b n : ℕ) (s : Bytes) → Lacks b s → Lacks b (take n s)
take-Lacks b zero s h = tt
take-Lacks b (suc n) [] h = tt
take-Lacks b (suc n) (c ∷ s) (x, h) = (x, take-Lacks b n s h)

-- A pattern with a byte that the text lacks is not found.
behind-Lacks :
    (b : ℕ) (pattern s : Bytes) → (Lacks b pattern → ⊥) → Lacks b s → behind pattern s ≡ none
unfolding behind
behind-Lacks b [] s has h = absurd (has tt)
behind-Lacks b (p ∷ ps) [] has h = refl
behind-Lacks b (p ∷ ps) (c ∷ s) has (x, h) =
    elim (Bool-cases (equal (take (length (p ∷ ps)) (c ∷ s)) (p ∷ ps))) [
      | inl e ↦ absurd (
          has (
            subst (Lacks b) ((equal_iff (take (length (p ∷ ps)) (c ∷ s)) (p ∷ ps)).0 e)
              (take-Lacks b (length (p ∷ ps)) (c ∷ s) (x, h))))
      | inr e ↦ rw e (behind-Lacks b (p ∷ ps) s has h)
    ]

abbrev entered : Bytes → Bytes → Terminal → Terminal
entered text name t = record (print_line (codes "[OK] " ++ text) t) {
  logged_in = true;
  current_user = name;
}

login_on :
    (name : Bytes) (t : Terminal)
    → on_success (codes "Logged in as " ++ name) t ≡ entered (codes "Logged in as " ++ name) name t
unfolding on_success behind
login_on name t = refl

module _ (name : Bytes) (h : Lacks b' ' name) where
  no_login : behind (codes "Logged in as ") name ≡ none
  no_login = behind-Lacks b' ' (codes "Logged in as ") name (λ l. ground arith) h

  no_registered : behind (codes "registered successfully") name ≡ none
  no_registered = behind-Lacks b' ' (codes "registered successfully") name (λ l. ground arith) h

  register_on :
      (t : Terminal)
      → on_success (codes "User registered successfully: " ++ name) t
        ≡ entered (codes "User registered successfully: " ++ name) name t
  unfolding on_success registered behind
  register_on t = rw no_login refl

  nick_on :
      (t : Terminal)
      → on_success (codes "Nickname changed to " ++ name) t
        ≡ print_line (codes "[OK] " ++ (codes "Nickname changed to " ++ name)) t
  unfolding on_success behind
  nick_on t = rw (no_login, no_registered) refl

-- The prompt behind what the client shows of the chunks.
abbrev pub prompt_behind : ℕ → List Bytes → Connection → Terminal → Option Bytes
prompt_behind now chunks c t = do
  (shown, end) ← receive_thread (map (λ b. bytes now b) chunks) c
  some (get_prompt (on_shown_all shown t))

prompt_of :
    (now : ℕ) (chunks : List Bytes) (c : Connection) (t u : Terminal) (text : Bytes)
    → receive_thread (map (λ b. bytes now b) chunks) c ≡ some (success_text text ∷ [], c)
    → on_success text t ≡ u
    → prompt_behind now chunks c t ≡ some (get_prompt u)
unfolding on_shown_all on_shown
prompt_of now chunks c t u text e f = rw (e, f) refl

-- A client that listens.
pub record IsListening (c : Connection) : Type 0 where
  pub on : c.client.running ≡ true
  pub up : c.client.connected ≡ true
  pub set : c.client.success_callback ≡ true

module _ (now : ℕ) (chunks : List Bytes) (c : Connection) (t : Terminal) (name : Bytes)
    (v : IsListening c) (plain : All IsText chunks) (line : Lacks newline name) where
  frame_shown :
      (text : Bytes)
      → Lacks newline text
      → joined chunks ≡ encode_success text
      → receive_thread (map (λ b. bytes now b) chunks) c ≡ some (success_text text ∷ [], c)
  frame_shown text whole e = receive_thread-success now c text chunks v.on v.up v.set whole plain e

  -- The server's answer to a /login, in whatever chunks it comes, puts the name that the server has
  -- given into the prompt of a client that listens, if the name holds no newline and no chunk a NUL byte.
  pub login-prompt :
      joined chunks ≡ encode_success (codes "Logged in as " ++ name)
      → prompt_behind now chunks c t ≡ some (codes "[" ++ (name ++ codes "] > "))
  unfolding get_prompt print_line
  login-prompt e =
      prompt_of now chunks c t _ _ (frame_shown (codes "Logged in as " ++ name) (ground arith) e)
        (login_on name t)

  -- So does the answer to a /register, if the name holds no space.
  pub register-prompt :
      Lacks b' ' name
      → joined chunks ≡ encode_success (codes "User registered successfully: " ++ name)
      → prompt_behind now chunks c t ≡ some (codes "[" ++ (name ++ codes "] > "))
  unfolding get_prompt print_line
  register-prompt word e =
      prompt_of now chunks c t _ _
        (frame_shown (codes "User registered successfully: " ++ name) (ground arith) e)
        (register_on name word t)

  -- The answer to a /nick, which gives the new name, leaves the prompt as it is, if the name holds no
  -- space and no newline and no chunk a NUL byte.
  pub nick-prompt :
      Lacks b' ' name
      → joined chunks ≡ encode_success (codes "Nickname changed to " ++ name)
      → prompt_behind now chunks c t ≡ some (get_prompt t)
  unfolding get_prompt print_line
  nick-prompt word e =
      prompt_of now chunks c t _ _
        (frame_shown (codes "Nickname changed to " ++ name) (ground arith) e) (nick_on name word t)
