-- ===== src/Server/Users/RoundTrip.antt =====
-- src/server.cpp: loadUsers behind saveUsers.
use smallchat.Base.{
  ◌≡◌, refl, ap, ◌∙◌, sym, subst, true, false, none, some, List, [], ◌∷◌, ◌++◌, Bytes, arith,
  cut_at_sep, Lacks, All, All-append, lookup, insert, bytes_eq, is_empty, equal_iff, ◌≢◌,
  append_assoc, append-nil, lookup-insert,
}
use smallchat.Codec.Message.{newline}
use smallchat.Codec.Lines.{send_lines}
use smallchat.Server.History.{getlines}
use smallchat.Server.History.Files.{getlines-send_lines}
use smallchat.Server.Users.{load_user, load_user_lines, load_users, save_users}

line_of : Bytes → Bytes → Bytes
line_of name password = name ++ (b':' ∷ password)

-- A user whose line can be read back: no colon in the name, no newline in the line.
abbrev pub IsPrintable : Bytes × Bytes → Type 0
IsPrintable (name, password) = Lacks b':' name × (Lacks newline name × Lacks newline password)

-- The keys of a map are different.
abbrev pub IsMap : List (Bytes × Bytes) → Type 0
IsMap [] = Unit
IsMap ((name, password) ∷ users) = (lookup name users ≡ none) × IsMap users

lines_of : List (Bytes × Bytes) → List Bytes
lines_of [] = []
lines_of ((name, password) ∷ users) = line_of name password ∷ lines_of users

insert_fresh :
    (name password : Bytes) (users : List (Bytes × Bytes))
    → lookup name users ≡ none
    → insert name password users ≡ users ++ ((name, password) ∷ [])
unfolding insert lookup
insert_fresh name password [] h = refl
insert_fresh name password ((n, p) ∷ users) h = ground (arith, insert_fresh name password users)

line-Lacks :
    (name password : Bytes) → IsPrintable (name, password) → Lacks newline (line_of name password)
unfolding line_of
line-Lacks name password (a, (b, c)) =
    All-append (λ x. x ≢ newline) name (b':' ∷ password) b (ground arith, c)

-- What is written are the lines of the users.
save_users-lines : (users : List (Bytes × Bytes)) → save_users users ≡ send_lines (lines_of users)
unfolding save_users lines_of line_of
save_users-lines [] = refl
save_users-lines ((name, password) ∷ users) =
    rw (save_users-lines users)
      (sym (append_assoc name (b':' ∷ password) (newline ∷ send_lines (lines_of users))))

lines_of-Lacks :
    (users : List (Bytes × Bytes)) → All IsPrintable users → All (Lacks newline) (lines_of users)
unfolding lines_of
lines_of-Lacks [] h = tt
lines_of-Lacks ((name, password) ∷ users) (p, h) =
    (line-Lacks name password p, lines_of-Lacks users h)

getlines-save_users :
    (users : List (Bytes × Bytes))
    → All IsPrintable users
    → getlines (save_users users) ≡ lines_of users
getlines-save_users users h =
    ap getlines (save_users-lines users)
    ∙ getlines-send_lines (lines_of users) (lines_of-Lacks users h)

load_line_of :
    (name password : Bytes) (users : List (Bytes × Bytes))
    → Lacks b':' name
    → load_user (line_of name password) users ≡ insert name password users
unfolding load_user line_of
load_line_of name password users h = rw (cut_at_sep b':' name password h, load_user) refl

line_of-filled : (name password : Bytes) → is_empty (line_of name password) ≡ false
unfolding line_of
line_of-filled [] password = refl
line_of-filled (c ∷ name) password = refl

-- Keys that no user of the one map and of the other share.
abbrev IsApart : List (Bytes × Bytes) → List (Bytes × Bytes) → Type 0
IsApart users seen = All (λ u. lookup u.0 seen ≡ none) users

IsApart-insert :
    (name password : Bytes) (users seen : List (Bytes × Bytes))
    → lookup name users ≡ none
    → IsApart users seen
    → IsApart users (insert name password seen)
unfolding lookup
IsApart-insert name password [] seen h a = tt
IsApart-insert name password ((n, p) ∷ users) seen h (q, a) = (
  ground (arith, lookup-insert name n password seen, equal_iff name n, equal_iff n name),
  IsApart-insert name password users seen (ground (arith)) a,
)

IsApart-nil : (users : List (Bytes × Bytes)) → IsApart users []
unfolding lookup
IsApart-nil [] = tt
IsApart-nil (u ∷ users) = (refl, IsApart-nil users)

load_first :
    (name password : Bytes) (ls : List Bytes) (seen : List (Bytes × Bytes))
    → Lacks b':' name
    → lookup name seen ≡ none
    → load_user_lines (line_of name password ∷ ls) seen
      ≡ load_user_lines ls (seen ++ ((name, password) ∷ []))
unfolding load_user_lines load_user
load_first name password ls seen h q = ap (load_user_lines ls) (
    ground (
      arith,
      line_of-filled name password,
      load_line_of name password seen h,
      insert_fresh name password seen q,
    ))

load_lines_of :
    (users seen : List (Bytes × Bytes))
    → All IsPrintable users
    → IsMap users
    → IsApart users seen
    → load_user_lines (lines_of users) seen ≡ seen ++ users
unfolding load_user_lines lines_of
load_lines_of [] seen h m a = sym (append-nil seen)
load_lines_of ((name, password) ∷ users) seen (p, h) (fresh, m) (q, a) =
    load_first name password (lines_of users) seen (p.0) q
    ∙ load_lines_of users (seen ++ ((name, password) ∷ [])) h m (
        subst (IsApart users) (insert_fresh name password seen q)
          (IsApart-insert name password users seen fresh a))
    ∙ append_assoc seen ((name, password) ∷ []) users

-- For users whose names are different and hold no colon and no newline, and whose hashes hold no
-- newline, loading the saved file into an empty table gives the same table.
pub load_users-save_users :
    (users : List (Bytes × Bytes))
    → All IsPrintable users
    → IsMap users
    → load_users (some (save_users users)) [] ≡ (users, true)
unfolding load_users
load_users-save_users users h m =
    ap (λ ls. (load_user_lines ls [], true)) (getlines-save_users users h)
    ∙ ap (λ u. (u, true)) (load_lines_of users [] h m (IsApart-nil users))
