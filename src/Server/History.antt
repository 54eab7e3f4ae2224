-- ===== src/Server/History.antt =====
-- src/server.cpp: addMessageToHistory, loadMessageHistory, saveMessageHistory, and the windows
-- that /history and /roomhistory show.
pub mod Bounds
pub mod Files
pub mod Log
pub mod Quiet
pub mod Recorded
pub mod Receipts
pub mod Reach
use smallchat.Base.{
  ℕ, zero, suc, ◌+◌, ◌-◌, ◌≤◌, ◌≡◌, refl, Bool, true, false, not, ◌&&◌, Option, none, some, List,
  [], ◌∷◌, ◌++◌, Bytes, cut, length, drop, ltb, leb, eqb, is_empty, if◌then◌else◌, lookup, insert,
  bytes_eq,
}
use smallchat.Codec.Message.{ChatMessage, MessageType, type_code, encode, decode, blank, newline}
use smallchat.Server.State.{Server}
use smallchat.Std.Decimal.{ℤ, pos, negsuc, stoi}

-- max_history_size_
abbrev pub max_history_size : ℕ
max_history_size = 1000

abbrev same_int : ℤ → ℤ → Bool
same_int (pos a) (pos b) = eqb a b
same_int (negsuc a) (negsuc b) = eqb a b
same_int _ _ = false

-- `message.type == t`
abbrev pub has_type : ChatMessage → MessageType → Bool
has_type m t = same_int m.type (type_code t)

-- push_back, then `if (size() > max) erase(begin())`
unfoldable pub push_bounded : ℕ → List ChatMessage → ChatMessage → List ChatMessage
push_bounded bound history m =
    let longer = history ++ (m ∷ []) in if ltb bound (length longer) then drop 1 longer else longer

unfoldable pub or_empty : Option (List ChatMessage) → List ChatMessage
or_empty none = []
or_empty (some l) = l

-- The history of a room; `[]` on a new room makes an empty one.
unfoldable pub room_history : Bytes → Server → List ChatMessage
unfolding or_empty
room_history room s = or_empty (lookup room s.room_message_history)

unfoldable pub add_message_to_history : ChatMessage → Server → Server
unfolding push_bounded room_history
add_message_to_history m s =
    let global = record s { message_history = push_bounded max_history_size s.message_history m } in
    if not (is_empty m.receiver) && has_type m MessageType.room_message
    then record global {
      room_message_history =
          insert m.receiver (push_bounded max_history_size (room_history m.receiver s) m)
            s.room_message_history;
    }
    else global

-- The lines of a file, as std::getline gives them: the end of the file ends a last line.
unfoldable pub file_lines : ℕ → Bytes → List Bytes
file_lines zero file = []
file_lines (suc fuel) [] = []
file_lines (suc fuel) (c ∷ s) = elim (cut newline (c ∷ s)) [
  | none ↦ (c ∷ s) ∷ []
  | some (line, rest) ↦ line ∷ file_lines fuel rest
]

-- Each line takes a byte at least, so the length is fuel enough.
unfoldable pub getlines : Bytes → List Bytes
unfolding file_lines
getlines file = file_lines (length file) file

unfoldable pub load_line : ℕ → Bytes → Server → Server
load_line now line s = elim (decode now line blank) [
  | none ↦ s
  | some m ↦ add_message_to_history m s
]

unfoldable pub load_lines : ℕ → List Bytes → Server → Server
unfolding load_line
load_lines now [] s = s
load_lines now (line ∷ rest) s =
    load_lines now rest (if is_empty line then s else load_line now line s)

-- `none` is a file that cannot be opened.
unfoldable pub load_message_history : ℕ → Option Bytes → Server → Server × Bool
unfolding load_lines getlines
load_message_history now none s = (s, false)
load_message_history now (some file) s = (load_lines now (getlines file) s, true)

unfoldable pub encode_all : List ChatMessage → Bytes
encode_all [] = []
encode_all (m ∷ ms) = encode m ++ encode_all ms

-- The text that is written.
unfoldable pub save_message_history : Server → Bytes
unfolding encode_all
save_message_history s = encode_all s.message_history

-- `count` of /history and /roomhistory, from the word behind the command.
unfoldable pub clamp_count : Option ℤ → ℕ
clamp_count none = 50
clamp_count (some (negsuc n)) = 1
clamp_count (some (pos n)) = if ltb n 1 then 1 else if ltb 100 n then 100 else n

unfoldable pub history_count : Bytes → ℕ
unfolding clamp_count
history_count count_str = if is_empty count_str then 50 else clamp_count (stoi count_str)

-- The last `count` messages.
unfoldable pub window : ℕ → List ChatMessage → List ChatMessage
window count history =
    drop (if ltb count (length history) then length history - count else 0) history
