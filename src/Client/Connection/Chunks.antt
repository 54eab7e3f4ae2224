-- ===== src/Client/Connection/Chunks.antt =====
-- src/client.cpp: what the receive thread shows, and the chunks in which it came.
use smallchat.Base.{
  ℕ, ◌≡◌, refl, ap, ◌∙◌, sym, ◌&&◌, Bool, true, false, Option, none, some, List, [], ◌∷◌, ◌++◌, map,
  append_assoc, Bytes, All, Lacks, arith, is_empty, if◌then◌else◌, Option-cases, Bool-cases, inl,
  inr, ◌>>=◌,
}
use smallchat.Client.{ChatClient, Shown, process_message}
use smallchat.Client.Connection.{Connection, bytes, process_lines, receive_rounds, receive_thread}
use smallchat.Codec.Lines.{receive, receive_all, send_lines}
use smallchat.Codec.Lines.Chunks.{IsText, joined, receive_all-send_lines}
use smallchat.Codec.Message.{newline}

abbrev both : Option (List Shown) → Option (List Shown) → Option (List Shown)
both a b = do x ← a; y ← b; some (x ++ y)

both_assoc : (a b c : Option (List Shown)) → both (both a b) c ≡ both a (both b c)
both_assoc none b c = refl
both_assoc (some a) none c = refl
both_assoc (some a) (some b) none = refl
both_assoc (some a) (some b) (some c) = ap some (append_assoc a b c)

process_lines-append :
    (client : ChatClient) (now : ℕ) (a b : List Bytes)
    → process_lines client now (a ++ b)
      ≡ both (process_lines client now a) (process_lines client now b)
unfolding process_lines
process_lines-append client now [] b = elim (Option-cases (process_lines client now b)) [
  | inl e ↦ rw e refl
  | inr (x, e) ↦ rw e refl
]
process_lines-append client now (l ∷ a) b = elim (Bool-cases (is_empty l)) [
  | inl e ↦ rw e (process_lines-append client now a b)
  | inr e ↦ rw e (
      ap (both (process_message client now l)) (process_lines-append client now a b)
      ∙ sym (
          both_assoc (process_message client now l) (process_lines client now a)
            (process_lines client now b)))
]

-- What the rounds show, with the connection that stays.
abbrev pub shows : Connection → Option (List Shown) → Option (List Shown × Connection)
shows c r = do x ← r; some (x, c)

shows-both :
    (c : Connection) (a b : Option (List Shown))
    → (do x ← a; (y, end) ← shows c b; some (x ++ y, end)) ≡ shows c (both a b)
shows-both c none b = refl
shows-both c (some a) none = refl
shows-both c (some a) (some b) = refl

receive_rounds-receive_all :
    (now : ℕ) (c : Connection) (chunks : List Bytes) (buffer : Bytes)
    → receive_rounds (map (λ b. bytes now b) chunks) buffer c
      ≡ shows c (process_lines c.client now (receive_all buffer chunks).0)
unfolding receive_rounds receive_all
receive_rounds-receive_all now c [] buffer = unfold process_lines in refl
receive_rounds-receive_all now c (chunk ∷ chunks) buffer =
    let r = receive buffer chunk in
    let later = (receive_all r.1 chunks).0 in
    rw (receive_rounds-receive_all now c chunks r.1) (
      shows-both c (process_lines c.client now r.0) (process_lines c.client now later)
      ∙ ap (shows c) (sym (process_lines-append c.client now r.0 later)))

if_true : {A : Type 0} (b : Bool) (x y : A) → b ≡ true → (if b then x else y) ≡ x
if_true true x y e = refl
if_true false x y e = absurd (ground arith)

-- A running client shows what the lines sent to it lead to, line by line, however they are cut into
-- chunks, if no line holds a newline and no chunk a NUL byte.
pub receive_thread-lines :
    (now : ℕ) (c : Connection) (lines chunks : List Bytes)
    → c.client.running ≡ true
    → c.client.connected ≡ true
    → All (Lacks newline) lines
    → All IsText chunks
    → joined chunks ≡ send_lines lines
    → receive_thread (map (λ b. bytes now b) chunks) c ≡ shows c (process_lines c.client now lines)
unfolding receive_thread
receive_thread-lines now c lines chunks on up whole text e =
    if_true (c.client.running && c.client.connected) _ _ (ground arith)
    ∙ receive_rounds-receive_all now c chunks []
    ∙ ap (λ r. shows c (process_lines c.client now r.0))
        (receive_all-send_lines lines chunks whole text e)
