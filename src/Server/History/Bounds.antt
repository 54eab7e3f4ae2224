-- ===== src/Server/History/Bounds.antt =====
-- src/server.cpp: the length of the histories, and the part that is shown.
use smallchat.Base.{
  ℕ, ◌-◌, ◌≤◌, ◌≡◌, Bool, true, false, Option, none, some, List, [], ◌∷◌, ◌++◌, Bytes, arith,
  length, take, take-drop, length-append, length-drop, is_empty, if◌then◌else◌, lookup-insert,
  bytes_eq, Bool-cases, Option-cases, inl, inr, ltb, equal_iff,
}
use smallchat.Codec.Message.{ChatMessage, decode, blank}
use smallchat.Std.Decimal.{ℤ, pos, negsuc, stoi}
use smallchat.Server.History.{
  push_bounded, or_empty, room_history, add_message_to_history, load_line, load_lines,
  load_message_history, getlines, clamp_count, history_count, window,
}
use smallchat.Server.State.{Server}

-- No history is longer than max_history_size_.
pub record IsBounded (s : Server) : Type 0 where
  pub global : length s.message_history ≤ 1000
  pub rooms : (room : Bytes) → length (room_history room s) ≤ 1000

push_bound :
    (h : List ChatMessage) (m : ChatMessage)
    → length h ≤ 1000
    → length (push_bounded 1000 h m) ≤ 1000
unfolding push_bounded
push_bound h m b = ground (arith, length-append h (m ∷ []), length-drop 1 (h ++ (m ∷ [])))

module _ (m : ChatMessage) (s : Server) (v : IsBounded s) where
  global_bound : length (add_message_to_history m s).message_history ≤ 1000
  unfolding add_message_to_history
  global_bound = ground (arith, push_bound s.message_history m v.global)

  rooms_bound : (room : Bytes) → length (room_history room (add_message_to_history m s)) ≤ 1000
  unfolding add_message_to_history room_history or_empty
  rooms_bound room =
      let own = push_bound (room_history m.receiver s) m (v.rooms m.receiver) in
      let other = v.rooms room in
      ground (
        arith,
        lookup-insert m.receiver room (push_bounded 1000 (room_history m.receiver s) m)
            s.room_message_history,
        equal_iff m.receiver room,
      )

  -- addMessageToHistory keeps all histories within the bound.
  pub add_message_to_history-IsBounded : IsBounded (add_message_to_history m s)
  add_message_to_history-IsBounded = record { global = global_bound; rooms = rooms_bound }

load_line-IsBounded :
    (now : ℕ) (l : Bytes) (s : Server) → IsBounded s → IsBounded (load_line now l s)
unfolding load_line
load_line-IsBounded now l s v = elim (Option-cases (decode now l blank)) [
  | inl e ↦ rw (e, load_line) v
  | inr (m, e) ↦ rw (e, load_line) (add_message_to_history-IsBounded m s v)
]

load_lines-IsBounded :
    (now : ℕ) (ls : List Bytes) (s : Server) → IsBounded s → IsBounded (load_lines now ls s)
unfolding load_lines
load_lines-IsBounded now [] s v = v
load_lines-IsBounded now (l ∷ ls) s v = load_lines-IsBounded now ls _ (either (is_empty l))
  where
    either : (b : Bool) → IsBounded (if b then s else load_line now l s)
    either true = v
    either false = load_line-IsBounded now l s v

-- loadMessageHistory keeps every history at 1000 messages at most, whatever the file holds and however
-- long it is.
pub load_message_history-IsBounded :
    (now : ℕ) (file : Option Bytes) (s : Server)
    → IsBounded s
    → IsBounded (load_message_history now file s).0
unfolding load_message_history
load_message_history-IsBounded now none s v = v
load_message_history-IsBounded now (some file) s v = load_lines-IsBounded now (getlines file) s v

clamp_bounds : (n : Option ℤ) → (1 ≤ clamp_count n) × (clamp_count n ≤ 100)
unfolding clamp_count
clamp_bounds none = ground arith
clamp_bounds (some (negsuc n)) = ground arith
clamp_bounds (some (pos n)) = ground arith

count_bounds : (w : Bytes) → (1 ≤ history_count w) × (history_count w ≤ 100)
unfolding history_count clamp_count
count_bounds w = elim (Bool-cases (is_empty w)) [
  | inl e ↦ ground arith
  | inr e ↦ ground (arith, clamp_bounds (stoi w))
]

window-length :
    (n : ℕ) (h : List ChatMessage)
    → length (window n h) ≡ (if ltb (length h) n then length h else n)
unfolding window
window-length n h = ground (arith, length-drop (if ltb n (length h) then length h - n else 0) h)

-- /history and /roomhistory show the last messages, in their order: as many as asked for, at least
-- one and at most 100, or all of them if there are fewer.
pub window-IsSuffix :
    (w : Bytes) (h : List ChatMessage)
    → ((older : List ChatMessage) × (older ++ window (history_count w) h ≡ h))
      × ((length (window (history_count w) h)
            ≡ (if ltb (length h) (history_count w) then length h else history_count w))
          × ((1 ≤ history_count w) × (history_count w ≤ 100)))
unfolding window
window-IsSuffix w h =
    let n = if ltb (history_count w) (length h) then length h - history_count w else 0 in
    ((take n h, take-drop n h), (window-length (history_count w) h, count_bounds w))
