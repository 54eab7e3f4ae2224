-- ===== src/Server/Files/Pieces.antt =====
-- src/server.cpp: the frames in which /transfer and /file send a file.
use mathlib.Core.List.{flatten}
use smallchat.Base.{
  All, ℕ, ◌+◌, ◌≡◌, refl, sym, ap, ◌∙◌, Bool, List, [], ◌∷◌, ◌++◌, append-nil, append_assoc, map,
  Bytes, arith, length, length-append, leb, is_empty,
}
use smallchat.Codec.Frames.{encode_file_transfer, encode_file_data}
use smallchat.Server.Files.{send_chunks, send_file, file_reads}
use smallchat.Server.Files.Frames.{concat, IsBlock, concat-file_reads}
use smallchat.Server.Send.{send_each}
use smallchat.Server.State.{Event, sends, Server}

-- A part of a file at its place.
pub record Piece : Type 0 where
  pub offset : ℕ
  pub bytes : Bytes
  pub complete : Bool

-- The pieces follow one another from `start` on, each of 1 to 4096 bytes, and only the last is marked.
abbrev pub IsInOrder : ℕ → List Piece → Type 0
IsInOrder start [] = Unit
IsInOrder start (p ∷ ps) =
    (p.offset ≡ start)
    × (IsBlock p.bytes × ((p.complete ≡ is_empty ps) × IsInOrder (start + length p.bytes) ps))

abbrev pub data_frame : Bytes → Bytes → Bytes → Piece → Bytes
data_frame sender receiver file_name p =
    encode_file_data sender receiver file_name p.offset p.bytes p.complete

-- Each frame to all the sockets, and then the next.
abbrev pub sent : List ℕ → List Bytes → List Event
sent sockets frames = flatten (map (λ frame. map (λ k. sends k frame) sockets) frames)

-- The pieces of the reads from `start` on, in a file of this size.
pieces : ℕ → List Bytes → ℕ → List Piece
pieces size [] start = []
pieces size (b ∷ bs) start =
    record { offset = start; bytes = b; complete = leb size (start + length b) }
    ∷ pieces size bs (start + length b)

module _ (size : ℕ) where
  pieces-bytes : (bs : List Bytes) (start : ℕ) → map (λ p. p.bytes) (pieces size bs start) ≡ bs
  unfolding pieces
  pieces-bytes [] start = refl
  pieces-bytes (b ∷ bs) start = ap (λ xs. b ∷ xs) (pieces-bytes bs (start + length b))

  last_piece :
      (b : Bytes) (bs : List Bytes) (start : ℕ)
      → All IsBlock bs
      → start + length (concat (b ∷ bs)) ≡ size
      → leb size (start + length b) ≡ is_empty (pieces size bs (start + length b))
  unfolding pieces
  last_piece b [] start h e = ground (arith, e, length-append b [])
  last_piece b (c ∷ bs) start (first, h) e =
      ground (arith, e, first, length-append b (concat (c ∷ bs)), length-append c (concat bs))

  pieces-IsInOrder :
      (bs : List Bytes) (start : ℕ)
      → All IsBlock bs
      → start + length (concat bs) ≡ size
      → IsInOrder start (pieces size bs start)
  unfolding pieces
  pieces-IsInOrder [] start h e = tt
  pieces-IsInOrder (b ∷ bs) start (first, h) e = (
    refl,
    (
      first,
      (
        last_piece b bs start h e,
        pieces-IsInOrder bs (start + length b) h (omega (arith, e, length-append b (concat bs))),
      ),
    ),
  )

module _ (sockets : List ℕ) (sender receiver file_name : Bytes) where
  send_chunks-out :
      (size : ℕ) (bs : List Bytes) (start : ℕ) (s : Server)
      → (send_chunks sockets sender receiver file_name size bs start s).out
        ≡ s.out ++ sent sockets (map (data_frame sender receiver file_name) (pieces size bs start))
  unfolding send_chunks pieces flatten
  send_chunks-out size [] start s = sym (append-nil s.out)
  send_chunks-out size (b ∷ bs) start s =
      let frame =
        encode_file_data sender receiver file_name start b (leb size (start + length b)) in
      let next = start + length b in
      send_chunks-out size bs next (send_each sockets frame s)
      ∙ append_assoc s.out (map (λ k. sends k frame) sockets)
          (sent sockets (map (data_frame sender receiver file_name) (pieces size bs next)))

  -- What /transfer and /file send of a file, to the one client or to each client of the room: first the
  -- announcement with the size, and then pieces of 1 to 4096 bytes with their offsets, one behind the
  -- other from the start of the file to its end; put together they are the file, and the last one, and
  -- no other, is marked as the last.
  pub send_file-IsInOrder :
      (file : Bytes) (s : Server)
      → (ps : List Piece) × (((send_file sockets sender receiver file_name file s).out
            ≡ s.out
              ++ sent sockets (
                  encode_file_transfer sender receiver file_name (length file)
                  ∷ map (data_frame sender receiver file_name) ps))
          × ((concat (map (λ p. p.bytes) ps) ≡ file) × IsInOrder 0 ps))
  unfolding send_file flatten
  send_file-IsInOrder file s =
      let size = length file in
      let reads = file_reads file in
      let (whole, blocks) = concat-file_reads file in
      let announced = encode_file_transfer sender receiver file_name size in
      let ps = pieces size reads 0 in
      (
        ps,
        (
          send_chunks-out size reads 0 (send_each sockets announced s)
              ∙ append_assoc s.out (map (λ k. sends k announced) sockets)
                  (sent sockets (map (data_frame sender receiver file_name) ps)),
          (
            ap concat (pieces-bytes size reads 0) ∙ whole,
            pieces-IsInOrder size reads 0 blocks (omega (arith, ap length whole)),
          ),
        ),
      )
