-- ===== src/Std/Decimal.antt =====
-- `std::to_string`, `ostream << int` and `std::stoi`, `std::stoul`, `std::stoull`: decimal texts.
use smallchat.Base.{
  ℕ, zero, suc, ◌+◌, ◌-◌, ◌*◌, ◌/◌, ◌%◌, ◌^◌, ◌<◌, ◌≡◌, refl, inl, inr, Bool, true, false, ◌&&◌,
  ◌||◌, Option, none, some, [], ◌∷◌, ◌++◌, append-nil, append_assoc, ◌∙◌, All, All-append, sym, ap,
  arith, Bytes, ltb, leb, eqb, if◌then◌else◌, Bool-cases,
}

-- `int`; `negsuc n` is -(n + 1).
pub data ℤ : Type 0 where
  pos : ℕ → ℤ
  negsuc : ℕ → ℤ

-- The value of `int` is below 2^31 and not below -2^31.
abbrev pub FitsInt : ℤ → Type 0
FitsInt (pos n) = n < 2 ^ 31
FitsInt (negsuc n) = n < 2 ^ 31

-- The digits of `n`, for a fuel above `n`.
unfoldable pub digits : ℕ → ℕ → Bytes
digits zero n = []
digits (suc f) n =
    let more = digits f (n / 10) ++ ((b'0' + n % 10) ∷ []) in
    if ltb n 10 then (b'0' + n) ∷ [] else more

unfoldable pub print : ℕ → Bytes
unfolding digits
print n = digits (suc n) n

unfoldable pub print_int : ℤ → Bytes
unfolding print
print_int (pos n) = print n
print_int (negsuc n) = b'-' ∷ print (suc n)

-- isspace in the "C" locale
unfoldable pub is_space : ℕ → Bool
is_space c = eqb c b' ' || (leb 9 c && leb c 13)

abbrev pub is_digit : ℕ → Bool
is_digit c = leb b'0' c && leb c b'9'

unfoldable pub skip_space : Bytes → Bytes
unfolding is_space
skip_space [] = []
skip_space (c ∷ s) = if is_space c then skip_space s else c ∷ s

-- strtol, behind the sign: the value of the digits up to the first other byte.
unfoldable pub read_digits : Bytes → ℕ → ℕ
read_digits [] n = n
read_digits (c ∷ s) n =
    let more = read_digits s (n * 10 + (c - b'0')) in if is_digit c then more else n

-- The magnitude; `none` where no digit stands first (std::invalid_argument).
unfoldable pub read_nat : Bytes → Option ℕ
unfolding read_digits
read_nat [] = none
read_nat (c ∷ s) = if is_digit c then some (read_digits (c ∷ s) 0) else none

-- `none` stands for std::invalid_argument and for std::out_of_range.
abbrev int_in_range : Option ℕ → Option ℤ
int_in_range none = none
int_in_range (some n) = if ltb n (2 ^ 31) then some (pos n) else none

abbrev negative_in_range : Option ℕ → Option ℤ
negative_in_range none = none
negative_in_range (some zero) = some (pos 0)
negative_in_range (some (suc n)) = if ltb n (2 ^ 31) then some (negsuc n) else none

signed : Bytes → Option ℤ
signed [] = none
signed (c ∷ s) =
    if eqb c b'-'
    then negative_in_range (read_nat s)
    else if eqb c b'+'
    then int_in_range (read_nat s)
    else int_in_range (read_nat (c ∷ s))

unfoldable pub stoi : Bytes → Option ℤ
unfolding signed read_nat skip_space
stoi s = signed (skip_space s)

-- strtoul and strtoull negate behind a '-', modulo 2^64; the magnitude must fit 64 bits.
abbrev wide_in_range : Bool → Option ℕ → Option ℕ
wide_in_range minus none = none
wide_in_range minus (some n) =
    if ltb n (2 ^ 64) then some (if minus then (2 ^ 64 - n) % 2 ^ 64 else n) else none

unsigned_value : Bytes → Option ℕ
unsigned_value [] = none
unsigned_value (c ∷ s) =
    if eqb c b'-'
    then wide_in_range true (read_nat s)
    else if eqb c b'+'
    then wide_in_range false (read_nat s)
    else wide_in_range false (read_nat (c ∷ s))

unfoldable pub stoull : Bytes → Option ℕ
unfolding unsigned_value read_nat skip_space
stoull s = unsigned_value (skip_space s)

-- Reading a print, whatever follows it.
read_digits-digits :
    (f n : ℕ) (s : Bytes) → n < f → read_digits (digits f n ++ s) 0 ≡ read_digits s n
unfolding digits read_digits
read_digits-digits zero n s h = elim h [ ]
read_digits-digits (suc f) n s h = elim (Bool-cases (ltb n 10)) [
  | inl small ↦ rw small (ground arith)
  | inr big ↦
      rw (big, append_assoc) (ground (arith, read_digits-digits f (n / 10) ((b'0' + n % 10) ∷ s)))
]

pub digits_head :
    (f n : ℕ) → n < f → (c : ℕ) × (s : Bytes) × (digits f n ≡ c ∷ s) × (is_digit c ≡ true)
unfolding digits
digits_head zero n h = elim h [ ]
digits_head (suc f) n h = elim (Bool-cases (ltb n 10)) [
  | inl small ↦ (b'0' + n, [], rw small, ground arith)
  | inr big ↦
      let (c, s, e, d) = digits_head f (n / 10) (ground arith) in
      (c, s ++ ((b'0' + n % 10) ∷ []), rw (big, e), d)
]

-- A print is one or more digits: no white space and no sign stands first.
pub print_head : (n : ℕ) → (c : ℕ) × (s : Bytes) × (print n ≡ c ∷ s) × (is_digit c ≡ true)
unfolding print
print_head n = digits_head (suc n) n (omega arith)

read_digits-print : (n : ℕ) (s : Bytes) → read_digits (print n ++ s) 0 ≡ read_digits s n
unfolding print
read_digits-print n s = read_digits-digits (suc n) n s (omega arith)

read_nat_text :
    (t : Bytes) (c : ℕ) (s : Bytes)
    → t ≡ c ∷ s
    → is_digit c ≡ true
    → read_nat t ≡ some (read_digits t 0)
unfolding read_nat
read_nat_text [] c s e d = cc
read_nat_text (x ∷ t) c s e d = ground arith

stoi_text :
    (t : Bytes) (c : ℕ) (s : Bytes)
    → t ≡ c ∷ s
    → is_digit c ≡ true
    → stoi t ≡ int_in_range (read_nat t)
unfolding stoi
stoi_text [] c s e d = cc
stoi_text (x ∷ t) c s e d = ground arith

pub read_nat-print : (n : ℕ) → read_nat (print n) ≡ some n
unfolding read_digits
read_nat-print n =
    let (c, s, e, d) = print_head n in
    read_nat_text (print n) c s e d
    ∙ ap some (ap (λ t. read_digits t 0) (sym (append-nil (print n))) ∙ read_digits-print n [])

stoi-print : (n : ℕ) → n < 2 ^ 31 → stoi (print n) ≡ some (pos n)
stoi-print n h =
    let (c, s, e, d) = print_head n in
    stoi_text (print n) c s e d ∙ rw (read_nat-print n) (ground arith)

stoi_minus : (s : Bytes) → stoi (b'-' ∷ s) ≡ negative_in_range (read_nat s)
unfolding stoi
stoi_minus s = refl

stoi-print_negative : (n : ℕ) → n < 2 ^ 31 → stoi (print_int (negsuc n)) ≡ some (negsuc n)
unfolding print_int
stoi-print_negative n h = stoi_minus (print (suc n)) ∙ rw (read_nat-print (suc n)) (ground arith)

-- `stoi` reads back every `int`.
pub stoi-print_int : (t : ℤ) → FitsInt t → stoi (print_int t) ≡ some t
stoi-print_int (pos n) h = unfold print_int in stoi-print n h
stoi-print_int (negsuc n) h = stoi-print_negative n h

digits-IsDigit : (f n : ℕ) → All (λ c. is_digit c ≡ true) (digits f n)
unfolding digits
digits-IsDigit zero n = tt
digits-IsDigit (suc f) n = elim (Bool-cases (ltb n 10)) [
  | inl small ↦ rw small (ground arith, tt)
  | inr big ↦ rw big (All-append _ _ _ (digits-IsDigit f (n / 10)) (ground arith, tt))
]

-- A printed number is made of digits.
pub print-IsDigit : (n : ℕ) → All (λ c. is_digit c ≡ true) (print n)
unfolding print
print-IsDigit n = digits-IsDigit (suc n) n

stoull_text :
    (t : Bytes) (c : ℕ) (s : Bytes)
    → t ≡ c ∷ s
    → is_digit c ≡ true
    → stoull t ≡ wide_in_range false (read_nat t)
unfolding stoull
stoull_text [] c s e d = cc
stoull_text (x ∷ t) c s e d = ground arith

-- `stoull` reads back every number of 64 bits.
pub stoull-print : (n : ℕ) → n < 2 ^ 64 → stoull (print n) ≡ some n
stoull-print n h =
    let (c, s, e, d) = print_head n in
    stoull_text (print n) c s e d ∙ rw (read_nat-print n) (ground arith)
