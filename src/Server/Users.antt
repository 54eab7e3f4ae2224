-- ===== src/Server/Users.antt =====
-- src/server.cpp: loadUsers and saveUsers.
pub mod RoundTrip
use smallchat.Base.{
  ◌≡◌, refl, Bool, true, false, Option, none, some, List, [], ◌∷◌, ◌++◌, Bytes, cut, is_empty,
  if◌then◌else◌, insert, bytes_eq,
}
use smallchat.Codec.Message.{newline}
use smallchat.Server.History.{getlines}

-- One line of users.txt: name, colon, hash.
unfoldable pub load_user : Bytes → List (Bytes × Bytes) → List (Bytes × Bytes)
load_user line users = elim (cut b':' line) [
  | none ↦ users
  | some (name, password) ↦ insert name password users
]

unfoldable pub load_user_lines : List Bytes → List (Bytes × Bytes) → List (Bytes × Bytes)
unfolding load_user
load_user_lines [] users = users
load_user_lines (line ∷ rest) users =
    load_user_lines rest (if is_empty line then users else load_user line users)

-- `users_` after the file, and the result.
unfoldable pub load_users : Option Bytes → List (Bytes × Bytes) → List (Bytes × Bytes) × Bool
unfolding load_user_lines
load_users none users = (users, false)
load_users (some file) users = (load_user_lines (getlines file) users, true)

-- The text that is written.
unfoldable pub save_users : List (Bytes × Bytes) → Bytes
save_users [] = []
save_users ((name, password) ∷ users) = name ++ (b':' ∷ (password ++ (newline ∷ save_users users)))
