-- ===== src/Server/Password.antt =====
-- src/server.cpp: hashPasswordWithSalt, hashPassword, verifyPassword. The key derivation is an
-- argument: `xor_derive` is the branch that is compiled without OPENSSL_FOUND, and the other one
-- calls OpenSSL. `none` stands for a fault: a C++ exception, or a remainder by zero.
pub mod Check
use smallchat.Base.{
  ℕ, zero, suc, ◌+◌, ◌-◌, ◌*◌, ◌/◌, ◌%◌, ◌≡◌, refl, Bool, true, false, ◌&&◌, Option, none, some,
  List, [], ◌∷◌, ◌++◌, Bytes, codes, bit_xor, cut, eqb, equal, leb, ltb, length, if◌then◌else◌,
  ◌>>=◌,
}
use smallchat.Std.Decimal.{is_space}

-- `std::hex << setw(2) << setfill('0')` of one byte.
unfoldable hex_digit : ℕ → ℕ
hex_digit d = if ltb d 10 then b'0' + d else b'a' + (d - 10)

unfoldable pub hex : Bytes → Bytes
unfolding hex_digit
hex [] = []
hex (b ∷ s) = hex_digit (b / 16) ∷ hex_digit (b % 16) ∷ hex s

-- One digit of base 16, as std::stoi reads it.
unfoldable pub digit_value : ℕ → Option ℕ
digit_value c =
    if leb b'0' c && leb c b'9'
    then some (c - b'0')
    else if leb b'a' c && leb c b'f'
    then some (c - b'a' + 10)
    else if leb b'A' c && leb c b'F'
    then some (c - b'A' + 10)
    else none

-- The digits of a text of at most two bytes, behind white space and sign. (A prefix "0x" of so
-- short a text is read as its digit 0, which the loop does too.)
unfoldable pub hex_digits : Bytes → ℕ → ℕ
unfolding digit_value
hex_digits [] n = n
hex_digits (c ∷ s) n = elim (digit_value c) [ none ↦ n | some d ↦ hex_digits s (n * 16 + d) ]

unfoldable pub hex_magnitude : Bytes → Option ℕ
unfolding hex_digits
hex_magnitude [] = none
hex_magnitude (c ∷ s) = elim (digit_value c) [ none ↦ none | some d ↦ some (hex_digits s d) ]

-- `static_cast<unsigned char>(std::stoi(byte_str, nullptr, 16))`
unfoldable pub signed_hex : Bytes → Option ℕ
unfolding hex_magnitude
signed_hex [] = none
signed_hex (c ∷ s) =
    if eqb c b'-'
    then hex_magnitude s >>= (λ n. some ((256 - n) % 256))
    else if eqb c b'+'
    then hex_magnitude s >>= (λ n. some (n % 256))
    else hex_magnitude (c ∷ s) >>= (λ n. some (n % 256))

unfoldable pub skip_blanks : Bytes → Bytes
skip_blanks [] = []
skip_blanks (c ∷ s) = if is_space c then skip_blanks s else c ∷ s

unfoldable pub stoi_hex_byte : Bytes → Option ℕ
unfolding signed_hex skip_blanks
stoi_hex_byte s = signed_hex (skip_blanks s)

-- `for (i = 0; i < length; i += 2)`: two digits each, the last time perhaps one.
unfoldable pub unhex : Bytes → Option Bytes
unfolding stoi_hex_byte
unhex [] = some []
unhex (c ∷ []) = do byte ← stoi_hex_byte (c ∷ []); some (byte ∷ [])
unhex (c ∷ d ∷ s) = do byte ← stoi_hex_byte (c ∷ d ∷ []); salt ← unhex s; some (byte ∷ salt)

unfoldable pub byte_at : Bytes → ℕ → Option ℕ
byte_at [] i = none
byte_at (x ∷ xs) zero = some x
byte_at (x ∷ xs) (suc i) = byte_at xs i

-- salt_char; `i % 0` faults.
unfoldable pub salt_char : Bytes → ℕ → Option ℕ
unfolding byte_at
salt_char salt i =
    if ltb i (length salt)
    then byte_at salt i
    else if eqb (length salt) 0
    then none
    else byte_at salt (i % length salt)

-- The loop over the password from index `i` on.
unfoldable pub xor_from : ℕ → Bytes → Bytes → Option Bytes
unfolding salt_char
xor_from i [] salt = some []
xor_from i (p ∷ password) salt = do
  k ← salt_char salt i
  result ← xor_from (i + 1) password salt
  some (bit_xor (bit_xor p k) (i % 256) % 256 ∷ result)

unfoldable pub xor_derive : Bytes → Bytes → Option Bytes
unfolding xor_from
xor_derive = xor_from 0

abbrev pub Derive : Type 0
Derive = Bytes → Bytes → Option Bytes

-- salt and hash in hexadecimal, with a colon between them
unfoldable pub hash_password : Derive → Bytes → Bytes → Option Bytes
unfolding hex
hash_password derive password salt = do
  hash ← derive password salt
  some (hex salt ++ (b':' ∷ hex hash))

unfoldable pub verify_password : Derive → Bytes → Bytes → Option Bool
unfolding unhex hash_password
verify_password derive password stored_hash = elim (cut b':' stored_hash) [
  | none ↦ some false
  | some (stored_salt_hex, _) ↦ do
    salt ← unhex stored_salt_hex
    computed_hash ← hash_password derive password salt
    some (equal computed_hash stored_hash)
]
