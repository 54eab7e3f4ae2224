-- ===== src/Utils.antt =====
-- src/common.cpp, namespace utils: the text helpers and the emoji table.
pub mod Emojis
pub mod Trim
pub mod Tests
use smallchat.Base.{
  ℕ, zero, suc, ◌+◌, ◌-◌, ◌/◌, ◌%◌, ◌≡◌, refl, Bool, true, false, not, ◌&&◌, Option, none, some,
  List, [], ◌∷◌, ◌++◌, Bytes, codes, eqb, equal, leb, length, take, drop, if◌then◌else◌, ◌||◌,
  lookup, insert, map, bytes_eq,
}
use smallchat.Std.Decimal.{ℤ, pos, negsuc, print}

unfoldable pub starts_with : Bytes → Bytes → Bool
starts_with str prefix = leb (length prefix) (length str) && equal (take (length prefix) str) prefix

abbrev is_blank : ℕ → Bool
is_blank c = eqb c b' ' || (eqb c b'\t' || (eqb c b'\n' || eqb c b'\r'))

unfoldable pub drop_blanks : Bytes → Bytes
drop_blanks [] = []
drop_blanks (c ∷ s) = if is_blank c then drop_blanks s else c ∷ s

unfoldable pub all_blank : Bytes → Bool
all_blank [] = true
all_blank (c ∷ s) = is_blank c && all_blank s

-- The text up to find_last_not_of.
unfoldable pub drop_end_blanks : Bytes → Bytes
unfolding all_blank
drop_end_blanks [] = []
drop_end_blanks (c ∷ s) = if all_blank (c ∷ s) then [] else c ∷ drop_end_blanks s

unfoldable pub trim : Bytes → Bytes
unfolding drop_blanks drop_end_blanks
trim str = drop_end_blanks (drop_blanks str)

-- emoji_map as it is written; the emojis are UTF-8.
abbrev emoji_entries : List (Bytes × Bytes)
emoji_entries =
    (codes ":)", 0xf0 ∷ 0x9f ∷ 0x98 ∷ 0x8a ∷ [])
    ∷ (codes ":(", 0xf0 ∷ 0x9f ∷ 0x98 ∷ 0xa2 ∷ [])
    ∷ (codes ":D", 0xf0 ∷ 0x9f ∷ 0x98 ∷ 0x84 ∷ [])
    ∷ (codes ";)", 0xf0 ∷ 0x9f ∷ 0x98 ∷ 0x89 ∷ [])
    ∷ (codes ":P", 0xf0 ∷ 0x9f ∷ 0x98 ∷ 0x9b ∷ [])
    ∷ (codes ":O", 0xf0 ∷ 0x9f ∷ 0x98 ∷ 0xae ∷ [])
    ∷ (codes ":S", 0xf0 ∷ 0x9f ∷ 0x98 ∷ 0x95 ∷ [])
    ∷ (codes ":|", 0xf0 ∷ 0x9f ∷ 0x98 ∷ 0x90 ∷ [])
    ∷ (codes ":-)", 0xf0 ∷ 0x9f ∷ 0x98 ∷ 0x8a ∷ [])
    ∷ (codes ":-(", 0xf0 ∷ 0x9f ∷ 0x98 ∷ 0xa2 ∷ [])
    ∷ (codes ":-D", 0xf0 ∷ 0x9f ∷ 0x98 ∷ 0x84 ∷ [])
    ∷ (codes ":-)", 0xf0 ∷ 0x9f ∷ 0x98 ∷ 0x89 ∷ [])
    ∷ (codes ":-P", 0xf0 ∷ 0x9f ∷ 0x98 ∷ 0x9b ∷ [])
    ∷ (codes ":-O", 0xf0 ∷ 0x9f ∷ 0x98 ∷ 0xae ∷ [])
    ∷ (codes ":-S", 0xf0 ∷ 0x9f ∷ 0x98 ∷ 0x95 ∷ [])
    ∷ (codes ":-|", 0xf0 ∷ 0x9f ∷ 0x98 ∷ 0x90 ∷ [])
    ∷ (codes "<3", 0xe2 ∷ 0x9d ∷ 0xa4 ∷ 0xef ∷ 0xb8 ∷ 0x8f ∷ [])
    ∷ (codes "<\\3", 0xf0 ∷ 0x9f ∷ 0x92 ∷ 0x94 ∷ [])
    ∷ (codes ":-*", 0xf0 ∷ 0x9f ∷ 0x98 ∷ 0x98 ∷ [])
    ∷ (codes ":*", 0xf0 ∷ 0x9f ∷ 0x98 ∷ 0x98 ∷ [])
    ∷ (codes "B)", 0xf0 ∷ 0x9f ∷ 0x98 ∷ 0x8e ∷ [])
    ∷ (codes "B-)", 0xf0 ∷ 0x9f ∷ 0x98 ∷ 0x8e ∷ [])
    ∷ []

-- A std::unordered_map keeps the first entry of a key.
unfoldable pub keep_first : List (Bytes × Bytes) → List (Bytes × Bytes) → List (Bytes × Bytes)
keep_first [] m = m
keep_first ((k, v) ∷ entries) m =
    keep_first entries (elim (lookup k m) [ none ↦ insert k v m | some _ ↦ m ])

-- The table, in one of the orders that an iteration over it may have.
unfoldable pub emoji_map : List (Bytes × Bytes)
unfolding keep_first lookup insert
emoji_map = keep_first emoji_entries []

-- The `while` over `result.find(emoji_code, pos)`, by the text from `pos` on, with fuel: a round
-- passes over one byte or one occurrence, so the length is fuel enough.
unfoldable pub replace_all : ℕ → Bytes → Bytes → Bytes → Bytes
unfolding starts_with
replace_all zero code emoji s = s
replace_all (suc fuel) code emoji [] = []
replace_all (suc fuel) code emoji (c ∷ s) = elim (starts_with (c ∷ s) code) [
  | true ↦ emoji ++ replace_all fuel code emoji (drop (length code) (c ∷ s))
  | false ↦ c ∷ replace_all fuel code emoji s
]

-- The table in the order of the iteration, and the text.
unfoldable pub replace_emojis : List (Bytes × Bytes) → Bytes → Bytes
unfolding replace_all
replace_emojis [] text = text
replace_emojis ((code, emoji) ∷ table) text =
    replace_emojis table (replace_all (length text) code emoji text)

unfoldable pub get_available_emojis : List (Bytes × Bytes) → List Bytes
get_available_emojis = map λ entry. entry.0

-- std::tm, as localtime_r fills it; tm_year counts from 1900 and tm_mon from 0.
pub record Tm : Type 0 where
  pub tm_year : ℕ
  pub tm_mon : ℕ
  pub tm_mday : ℕ
  pub tm_hour : ℕ
  pub tm_min : ℕ
  pub tm_sec : ℕ

-- Two digits, with a zero in front where there is only one.
unfoldable pub two_digits : ℕ → Bytes
two_digits n = (b'0' + n / 10 % 10) ∷ (b'0' + n % 10) ∷ []

-- std::put_time with "%Y-%m-%d %H:%M:%S".
unfoldable pub format_timestamp : Tm → Bytes
unfolding two_digits
format_timestamp t =
    print (1900 + t.tm_year)
    ++ (b'-'
        ∷ (two_digits (1 + t.tm_mon)
            ++ (b'-'
                ∷ (two_digits t.tm_mday
                    ++ (b' '
                        ∷ (two_digits t.tm_hour
                            ++ (b':' ∷ (two_digits t.tm_min ++ (b':' ∷ two_digits t.tm_sec)))))))))

abbrev pub charset : Bytes
charset = codes "abcdefghijklmnopqrstuvwxyzABCDEFGHIJKLMNOPQRSTUVWXYZ0123456789"

-- operator[] of a std::string, which has a NUL behind its end.
abbrev pub byte_at : ℕ → Bytes → ℕ
byte_at i [] = 0
byte_at zero (c ∷ s) = c
byte_at (suc i) (c ∷ s) = byte_at i s

-- The rounds of the loop from `i` on; `dis` gives the number that is drawn in a round.
unfoldable pub draw_from : (ℕ → ℕ) → ℕ → ℕ → Bytes
draw_from dis i zero = []
draw_from dis i (suc rounds) = byte_at (dis i) charset ∷ draw_from dis (suc i) rounds

-- A negative length draws nothing.
unfoldable pub generate_random_id : (ℕ → ℕ) → ℤ → Bytes
unfolding draw_from
generate_random_id dis (pos n) = draw_from dis 0 n
generate_random_id dis (negsuc n) = []
