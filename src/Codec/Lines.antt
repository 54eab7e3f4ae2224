-- ===== src/Codec/Lines.antt =====
-- The receive buffer of src/server.cpp (handleClient) and src/client.cpp (receiveThread): received
-- chunks are joined, and whole lines are taken from the front.
pub mod Chunks
use smallchat.Base.{
  ℕ, zero, suc, ◌+◌, ◌≤◌, ◌<◌, ◌≡◌, refl, sym, ◌∙◌, ap, ◌⊎◌, inl, inr, Option, none, some, List, [],
  ◌∷◌, ◌++◌, append-nil, append_assoc, arith, Bytes, codes, cut, length, length-append, eqb,
  is_empty, if◌then◌else◌, Option-cases, Lacks, Bool-cases, true, false,
}
use smallchat.Codec.Message.{newline}

-- `buffer[n] = '\0'; received_data += buffer`: only the part in front of a NUL byte is added.
unfoldable pub c_string : Bytes → Bytes
c_string [] = []
c_string (c ∷ s) = if eqb c 0 then [] else c ∷ c_string s

-- The `while` over `received_data.find(MSG_SEPARATOR)`, with fuel: the lines, and what is left.
unfoldable pub take_lines : ℕ → Bytes → List Bytes × Bytes
take_lines zero received = ([], received)
take_lines (suc fuel) received = elim (cut newline received) [
  | none ↦ ([], received)
  | some (line, rest) ↦ (line ∷ (take_lines fuel rest).0, (take_lines fuel rest).1)
]

-- One `recv`: the buffer before, the chunk; the lines that are now whole, and the buffer after.
-- Each round takes at least the separator, so the length is fuel enough.
unfoldable pub receive : Bytes → Bytes → List Bytes × Bytes
unfolding take_lines c_string
receive buffer chunk =
    let received = buffer ++ c_string chunk in take_lines (length received) received

-- A connection: all chunks in turn.
unfoldable pub receive_all : Bytes → List Bytes → List Bytes × Bytes
receive_all buffer [] = ([], buffer)
receive_all buffer (chunk ∷ chunks) =
    let now = receive buffer chunk in
    let later = receive_all now.1 chunks in (now.0 ++ later.0, later.1)

-- Lines as they are sent.
abbrev pub send_lines : List Bytes → Bytes
send_lines [] = []
send_lines (l ∷ ls) = l ++ (newline ∷ send_lines ls)
