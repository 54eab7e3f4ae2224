-- ===== src/Server/Rooms/Members.antt =====
-- src/server.cpp: the names of the members of a room.
use smallchat.Base.{◌≡◌, refl, false, ◌||◌, List, [], ◌∷◌, ◌++◌, Bytes, arith, equal, equal_iff}
use smallchat.Server.Registry.Lines.{if_all}
use smallchat.Server.Rooms.{contains, remove}

-- No name is there twice.
abbrev pub IsDistinct : List Bytes → Type 0
IsDistinct [] = Unit
IsDistinct (m ∷ ms) = (contains ms m ≡ false) × IsDistinct ms

contains-append :
    (ms : List Bytes) (n x : Bytes) → contains (ms ++ (n ∷ [])) x ≡ contains ms x || equal n x
unfolding contains
contains-append [] n x = ground arith
contains-append (m ∷ ms) n x = ground (arith, contains-append ms n x)

pub append-IsDistinct :
    (ms : List Bytes) (n : Bytes)
    → contains ms n ≡ false
    → IsDistinct ms
    → IsDistinct (ms ++ (n ∷ []))
unfolding contains
append-IsDistinct [] n new h = (refl, tt)
append-IsDistinct (m ∷ ms) n new (fresh, h) = (
  ground (arith, contains-append ms n m, equal_iff m n, equal_iff n m),
  append-IsDistinct ms n (ground arith) h,
)

contains-remove :
    (n x : Bytes) (ms : List Bytes) → contains ms x ≡ false → contains (remove n ms) x ≡ false
unfolding contains remove
contains-remove n x [] h = refl
contains-remove n x (m ∷ ms) h = ground (arith, contains-remove n x ms)

pub remove-IsDistinct : (n : Bytes) (ms : List Bytes) → IsDistinct ms → IsDistinct (remove n ms)
unfolding remove
remove-IsDistinct n [] h = tt
remove-IsDistinct n (m ∷ ms) (fresh, h) =
    let rest = remove-IsDistinct n ms h in
    let other = contains-remove n m ms fresh in if_all IsDistinct (equal m n) _ _ rest (other, rest)
