-- ===== src/Server/Files/Frames.antt =====
-- src/server.cpp: the blocks in which /transfer and /file read a file.
use smallchat.Base.{
  All, ℕ, zero, suc, ◌≤◌, ◌≡◌, refl, ap, List, [], ◌∷◌, ◌++◌, Bytes, arith, length, take, drop,
  length-drop,
}
use smallchat.Server.Files.{chunks, file_reads}

abbrev pub concat : List Bytes → Bytes
concat [] = []
concat (b ∷ bs) = b ++ concat bs

take-drop : (n : ℕ) (s : Bytes) → take n s ++ drop n s ≡ s
take-drop zero s = refl
take-drop (suc n) [] = refl
take-drop (suc n) (c ∷ s) = ap (λ t. c ∷ t) (take-drop n s)

length-take : (n : ℕ) (s : Bytes) → length (take n s) ≤ n
length-take zero s = omega arith
length-take (suc n) [] = omega arith
length-take (suc n) (c ∷ s) = omega (arith, length-take n s)

concat-chunks : (fuel : ℕ) (file : Bytes) → length file ≤ fuel → concat (chunks fuel file) ≡ file
unfolding chunks
concat-chunks zero [] h = refl
concat-chunks zero (b ∷ file) h = ground arith
concat-chunks (suc fuel) [] h = refl
concat-chunks (suc fuel) (b ∷ file) h =
    rw (concat-chunks fuel (drop 4096 (b ∷ file)) (omega (arith, h, length-drop 4095 file)))
      (take-drop 4096 (b ∷ file))

-- A block of a read.
abbrev pub IsBlock : Bytes → Type 0
IsBlock b = (1 ≤ length b) × (length b ≤ 4096)

chunks-IsBlock : (fuel : ℕ) (file : Bytes) → All IsBlock (chunks fuel file)
unfolding chunks
chunks-IsBlock zero file = tt
chunks-IsBlock (suc fuel) [] = tt
chunks-IsBlock (suc fuel) (b ∷ file) =
    ((omega arith, length-take 4096 (b ∷ file)), chunks-IsBlock fuel (drop 4096 (b ∷ file)))

-- The reads of a file put together are the file, and each gives at least one byte and at most 4096.
pub concat-file_reads :
    (file : Bytes) → (concat (file_reads file) ≡ file) × All IsBlock (file_reads file)
unfolding file_reads
concat-file_reads file =
    (concat-chunks (length file) file (omega arith), chunks-IsBlock (length file) file)
