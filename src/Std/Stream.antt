-- ===== src/Std/Stream.antt =====
-- std::istringstream as the text that is left to read.
use smallchat.Base.{[], ◌∷◌, Bytes, eqb, if◌then◌else◌}
use smallchat.Std.Decimal.{is_space, skip_space}

-- The bytes up to the first white space, and what is left.
unfoldable pub word : Bytes → Bytes × Bytes
unfolding is_space
word [] = ([], [])
word (c ∷ s) = let (w, r) = word s in if is_space c then ([], c ∷ s) else (c ∷ w, r)

-- `iss >> w` into an empty string: at the end of the text it stays empty.
unfoldable pub next_word : Bytes → Bytes × Bytes
unfolding word skip_space
next_word s = word (skip_space s)

until_newline : Bytes → Bytes
until_newline [] = []
until_newline (c ∷ s) = if eqb c b'\n' then [] else c ∷ until_newline s

-- `getline(iss >> ws, t)` into an empty string.
unfoldable pub rest_of_line : Bytes → Bytes
unfolding until_newline skip_space
rest_of_line s = until_newline (skip_space s)
