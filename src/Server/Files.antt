-- ===== src/Server/Files.antt =====
-- src/server.cpp, handleCommand: /transfer and /file.
pub mod Frames
pub mod Pieces
use smallchat.Base.{
  ℕ, zero, suc, ◌+◌, ◌≡◌, refl, Bool, true, false, not, ◌&&◌, ◌||◌, Option, none, some, List, [],
  ◌∷◌, ◌++◌, Bytes, codes, eqb, leb, length, take, drop, is_empty, if◌then◌else◌,
}
use smallchat.Codec.Frames.{encode_error, encode_success, encode_file_transfer, encode_file_data}
use smallchat.Server.Send.{send, send_each, get_client_by_name, room_sockets}
use smallchat.Server.State.{ClientInfo, Server, Env}
use smallchat.Std.Stream.{next_word}

-- The reads of `while (file.read(buffer, 4096) || file.gcount() > 0)`, with fuel: each read takes a
-- byte at least, so the length is fuel enough.
unfoldable pub chunks : ℕ → Bytes → List Bytes
chunks zero file = []
chunks (suc fuel) [] = []
chunks (suc fuel) (b ∷ file) = take 4096 (b ∷ file) ∷ chunks fuel (drop 4096 (b ∷ file))

unfoldable pub file_reads : Bytes → List Bytes
unfolding chunks
file_reads file = chunks (length file) file

-- `file_path.find_last_of("/\\")` and the part behind it.
unfoldable pub has_slash : Bytes → Bool
has_slash [] = false
has_slash (c ∷ s) = (eqb c b'/' || eqb c b'\\') || has_slash s

unfoldable pub file_name_of : Bytes → Bytes
unfolding has_slash
file_name_of [] = []
file_name_of (c ∷ s) =
    if has_slash s then file_name_of s else if eqb c b'/' || eqb c b'\\' then s else c ∷ s

-- One frame for each read, to all the sockets; the last arguments are the reads and the offset.
unfoldable pub send_chunks : List ℕ → Bytes → Bytes → Bytes → ℕ → List Bytes → ℕ → Server → Server
send_chunks sockets sender receiver file_name file_size [] offset s = s
send_chunks sockets sender receiver file_name file_size (file_data ∷ rest) offset s =
    let complete = leb file_size (offset + length file_data) in
    send_chunks sockets sender receiver file_name file_size rest (offset + length file_data)
      (send_each sockets (encode_file_data sender receiver file_name offset file_data complete) s)

-- The request and the data.
unfoldable pub send_file : List ℕ → Bytes → Bytes → Bytes → Bytes → Server → Server
unfolding send_chunks file_reads
send_file sockets sender receiver file_name file s =
    send_chunks sockets sender receiver file_name (length file) (file_reads file) 0
      (send_each sockets (encode_file_transfer sender receiver file_name (length file)) s)

unfoldable pub transferred : Env → ℕ → ClientInfo → ClientInfo → Bytes → Bytes → Server → Server
transferred env fd c target file_path target_name s = elim (env.read_file file_path) [
  | none ↦ send fd (encode_error (codes "Failed to open file: " ++ file_path)) s
  | some file ↦
      let file_name = file_name_of file_path in
      send fd (encode_success (codes "File transfer started: " ++ file_name))
        (send_file (target.socket_fd ∷ []) c.name target_name file_name file s)
]

unfoldable pub transfer : Env → ℕ → ClientInfo → Bytes → Server → Server
unfolding transferred
transfer env fd c args s =
    let (file_path, rest) = next_word args in
    let (target_name, _) = next_word rest in
    if is_empty file_path || is_empty target_name
    then send fd (encode_error (codes "Usage: /transfer <file> <name> or /t <file> <name>")) s
    else (elim (get_client_by_name target_name s) [
      | none ↦ send fd (encode_error (codes "User not found: " ++ target_name)) s
      | some target ↦ transferred env fd c target file_path target_name s
    ])

unfoldable pub to_room : Env → ℕ → ClientInfo → Bytes → Server → Server
to_room env fd c file_path s = elim (env.read_file file_path) [
  | none ↦ send fd (encode_error (codes "Failed to open file: " ++ file_path)) s
  | some file ↦
      let file_name = file_name_of file_path in
      send fd (encode_success (codes "File sent to room: " ++ file_name))
        (send_file (room_sockets c.current_room s) c.name c.current_room file_name file s)
]

unfoldable pub file_to_room : Env → ℕ → ClientInfo → Bytes → Server → Server
unfolding to_room
file_to_room env fd c args s =
    let (file_path, _) = next_word args in
    if is_empty file_path
    then send fd (encode_error (codes "Usage: /file <file>")) s
    else if is_empty c.current_room
    then send fd (encode_error (codes "Not in any room")) s
    else to_room env fd c file_path s
