-- ===== src/Server/Threads/Chunks.antt =====
-- src/server.cpp, handleClient: what a client's bytes lead to, and the chunks in which they come.
use smallchat.Base.{
  ℕ, suc, ◌+◌, arith, length, ◌≡◌, refl, ap, ◌∙◌, sym, Bool, true, List, [], ◌∷◌, ◌++◌, Bytes, All,
  Lacks,
}
use smallchat.Codec.Lines.{receive, receive_all, send_lines}
use smallchat.Codec.Lines.Chunks.{IsText, joined, receive_all-send_lines}
use smallchat.Codec.Message.{newline}
use smallchat.Server.Leave.{remove_client}
use smallchat.Server.Line.{Input, run, step, handle_line}
use smallchat.Server.State.{Server, Env, Outcome, returns, stops, ◌>>=◌}
use smallchat.Server.Threads.{Standing, ended, Received, bytes, gone, handle_lines, handle_client}

-- The rounds of a server that runs, up to the end of the connection.
abbrev pub arrive : List Bytes → List (Bool × Received)
arrive [] = (true, gone) ∷ []
arrive (chunk ∷ chunks) = (true, bytes chunk) ∷ arrive chunks

-- The lines of a client and its end, as inputs of the server.
abbrev pub inputs : (ℕ → Env) → ℕ → ℕ → List Bytes → List Input
inputs env n fd [] = Input.end (env n) fd ∷ []
inputs env n fd (line ∷ lines) = Input.line (env n) fd line ∷ inputs env (suc n) fd lines

-- The thread's end behind the state that a run leads to.
abbrev pub ends : Outcome Server → Outcome (Server × Standing)
ends o = do s ← o; returns (s, ended)

module _ {ℓ κ} {B : Type ℓ} {C : Type κ} where
  bind_assoc :
      (o : Outcome Server) (f : Server → Outcome B) (g : B → Outcome C)
      → (do y ← (do x ← o; f x); g y) ≡ (do x ← o; y ← f x; g y)
  bind_assoc (returns s) f g = refl
  bind_assoc (stops why s) f g = refl

bind_cong {ℓ} :
    {B : Type ℓ} (o : Outcome Server) (f g : Server → Outcome B)
    → ((x : Server) → f x ≡ g x)
    → (do x ← o; f x) ≡ (do x ← o; g x)
bind_cong (returns s) f g h = h s
bind_cong (stops why s) f g h = refl

module _ (env : ℕ → Env) (fd : ℕ) where
  -- The lines from the `n`-th on, and then the end.
  abbrev rest_of : ℕ → List Bytes → Server → Outcome (Server × Standing)
  rest_of n lines s = ends (run (inputs env n fd lines) s)

  rest_of-append :
      (a b : List Bytes) (n k : ℕ) (s : Server)
      → n + length a ≡ k
      → rest_of n (a ++ b) s ≡ (do s' ← handle_lines env n fd a s; rest_of k b s')
  unfolding handle_lines run step
  rest_of-append [] b n k s e = let same : n ≡ k = omega (arith, e) in ap (λ m. rest_of m b s) same
  rest_of-append (l ∷ a) b n k s e =
      let first = handle_line (env n) fd l s in
      bind_assoc first (λ x. run (inputs env (suc n) fd (a ++ b)) x) (λ y. returns (y, ended))
      ∙ bind_cong first (λ x. rest_of (suc n) (a ++ b) x)
          (λ x. do y ← handle_lines env (suc n) fd a x; rest_of k b y)
          (λ x. rest_of-append a b (suc n) k x (omega (arith, e)))
      ∙ sym (bind_assoc first (λ x. handle_lines env (suc n) fd a x) (λ y. rest_of k b y))

  handle_client-receive_all :
      (chunks : List Bytes) (buffer : Bytes) (n : ℕ) (s : Server)
      → handle_client env n fd (arrive chunks) buffer s ≡ rest_of n (receive_all buffer chunks).0 s
  unfolding handle_client receive_all run step
  handle_client-receive_all [] buffer n s =
      sym (bind_assoc (remove_client (env n) fd fd s) (λ x. returns x) (λ y. returns (y, ended)))
  handle_client-receive_all (chunk ∷ chunks) buffer n s =
      let now = receive buffer chunk in
      let later = (receive_all now.1 chunks).0 in
      bind_cong (handle_lines env n fd now.0 s)
        (λ s'. handle_client env (n + length now.0) fd (arrive chunks) now.1 s')
        (λ s'. rest_of (n + length now.0) later s')
        (λ s'. handle_client-receive_all chunks now.1 (n + length now.0) s')
      ∙ sym (rest_of-append now.0 later n (n + length now.0) s refl)

  -- A client's thread on a server that runs, whatever the chunks in which its lines come: what it does
  -- is the server's run on the lines, one after the other, and the end of the connection, and where
  -- that returns the thread has ended. No line holds a newline and no chunk a NUL byte; no other thread
  -- comes in between.
  pub handle_client-run :
      (lines chunks : List Bytes) (s : Server)
      → All (Lacks newline) lines
      → All IsText chunks
      → joined chunks ≡ send_lines lines
      → handle_client env 0 fd (arrive chunks) [] s ≡ ends (run (inputs env 0 fd lines) s)
  handle_client-run lines chunks s whole text e =
      handle_client-receive_all chunks [] 0 s
      ∙ ap (λ r. ends (run (inputs env 0 fd r.0) s))
          (receive_all-send_lines lines chunks whole text e)
