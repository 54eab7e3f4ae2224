-- ===== src/Server/History/Files.antt =====
-- src/server.cpp: std::getline over a file of whole lines, and message_history.txt read back.
use smallchat.Base.{
  ℕ, zero, suc, ◌≤◌, ◌≡◌, refl, ap, ◌∙◌, true, false, some, List, [], ◌∷◌, ◌++◌, map, append_assoc,
  Bytes, arith, cut_at_sep, Lacks, All, length, length-append, is_empty,
}
use smallchat.Codec.Lines.{send_lines}
use smallchat.Codec.Message.{ChatMessage, newline, blank, decode}
use smallchat.Codec.Message.RoundTrip.{received}
use smallchat.Codec.Message.Line.{
  IsOneLine, message_line, message_line-Lacks, encode-message_line, decode-message_line,
}
use smallchat.Server.History.{
  file_lines, getlines, load_line, load_lines, load_message_history, encode_all,
  save_message_history, add_message_to_history,
}
use smallchat.Server.History.Log.{record_all}
use smallchat.Server.State.{Server}

file_lines-line :
    (fuel : ℕ) (line rest : Bytes)
    → Lacks newline line
    → file_lines (suc fuel) (line ++ (newline ∷ rest)) ≡ line ∷ file_lines fuel rest
unfolding file_lines
file_lines-line fuel [] rest h = rw (cut_at_sep newline [] rest tt, file_lines) refl
file_lines-line fuel (c ∷ line) rest h = rw (cut_at_sep newline (c ∷ line) rest h, file_lines) refl

file_lines-send_lines :
    (fuel : ℕ) (ls : List Bytes)
    → All (Lacks newline) ls
    → length (send_lines ls) ≤ fuel
    → file_lines fuel (send_lines ls) ≡ ls
unfolding file_lines
file_lines-send_lines zero [] h enough = refl
file_lines-send_lines (suc fuel) [] h enough = refl
file_lines-send_lines zero (l ∷ ls) h enough =
    absurd (omega (arith, enough, length-append l (newline ∷ send_lines ls)))
file_lines-send_lines (suc fuel) (l ∷ ls) h enough =
    file_lines-line fuel l (send_lines ls) h.0
    ∙ ap (λ t. l ∷ t)
        (file_lines-send_lines fuel ls h.1
          (omega (arith, enough, length-append l (newline ∷ send_lines ls))))

-- std::getline gives back the lines of a file that was written line by line.
pub getlines-send_lines : (ls : List Bytes) → All (Lacks newline) ls → getlines (send_lines ls) ≡ ls
unfolding getlines
getlines-send_lines ls h = file_lines-send_lines _ ls h (omega arith)

-- The messages as they come back.
abbrev pub reloaded : ℕ → List ChatMessage → List ChatMessage
reloaded now = map λ m. received now m blank

encode_all-lines : (ms : List ChatMessage) → encode_all ms ≡ send_lines (map message_line ms)
unfolding encode_all
encode_all-lines [] = refl
encode_all-lines (m ∷ ms) =
    rw (encode-message_line m, encode_all-lines ms)
      (append_assoc (message_line m) (newline ∷ []) (send_lines (map message_line ms)))

lines-Lacks : (ms : List ChatMessage) → All IsOneLine ms → All (Lacks newline) (map message_line ms)
lines-Lacks [] h = tt
lines-Lacks (m ∷ ms) (v, h) = (message_line-Lacks m v, lines-Lacks ms h)

load_lines-line :
    (now : ℕ) (line : Bytes) (m : ChatMessage) (ls : List Bytes) (s : Server)
    → is_empty line ≡ false
    → decode now line blank ≡ some m
    → load_lines now (line ∷ ls) s ≡ load_lines now ls (add_message_to_history m s)
unfolding load_lines load_line
load_lines-line now line m ls s e d = rw (e, load_line, d) refl

load_lines-message :
    (now : ℕ) (m : ChatMessage) (ls : List Bytes) (s : Server)
    → IsOneLine m
    → load_lines now (message_line m ∷ ls) s
      ≡ load_lines now ls (add_message_to_history (received now m blank) s)
load_lines-message now m ls s v =
    load_lines-line now (message_line m) (received now m blank) ls s refl
      (decode-message_line now m blank v)

load_lines-record_all :
    (now : ℕ) (ms : List ChatMessage) (s : Server)
    → All IsOneLine ms
    → load_lines now (map message_line ms) s ≡ record_all (reloaded now ms) s
unfolding record_all
load_lines-record_all now [] s h = unfold load_lines in refl
load_lines-record_all now (m ∷ ms) s (v, h) =
    load_lines-message now m (map message_line ms) s v
    ∙ load_lines-record_all now ms (add_message_to_history (received now m blank) s) h

-- Loading the saved history records the saved messages in their order, each with the fields that
-- travel and the time of the loading, if no field that is written as it is holds a newline, and no
-- name a bar.
pub load-save_history :
    (now : ℕ) (s t : Server)
    → All IsOneLine s.message_history
    → load_message_history now (some (save_message_history s)) t
      ≡ (record_all (reloaded now s.message_history) t, true)
unfolding load_message_history save_message_history
load-save_history now s t h =
    ap (λ ls. (load_lines now ls t, true))
      (ap getlines (encode_all-lines s.message_history)
        ∙ getlines-send_lines (map message_line s.message_history)
            (lines-Lacks s.message_history h))
    ∙ ap (λ u. (u, true)) (load_lines-record_all now s.message_history t h)
