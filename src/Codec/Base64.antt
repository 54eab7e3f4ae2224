-- ===== src/Codec/Base64.antt =====
-- src/common.cpp: base64Encode and base64Decode. A `char` is a byte, a number below 256.
pub mod Bits
pub mod RoundTrip
use Prim.Native.Nat.{bit_and}
use smallchat.Base.{
  ℕ, zero, suc, ◌+◌, ◌*◌, ◌/◌, ◌%◌, ◌≡◌, refl, Option, none, some, List, [], ◌∷◌, ◌++◌, arith,
  Bytes, codes, eqb, if◌then◌else◌,
}

-- base64_chars
abbrev pub base64_chars : Bytes
base64_chars = codes "ABCDEFGHIJKLMNOPQRSTUVWXYZabcdefghijklmnopqrstuvwxyz0123456789+/"

abbrev get_or : Bytes → ℕ → ℕ → ℕ
get_or [] i d = d
get_or (x ∷ xs) zero d = x
get_or (x ∷ xs) (suc i) d = get_or xs i d

-- base64_chars[x]; at 64 there stands the terminating NUL, and no index goes beyond 63.
unfoldable pub char_of : ℕ → ℕ
char_of x = get_or base64_chars x 0

index_from : ℕ → Bytes → ℕ → ℕ
index_from i [] c = 255
index_from i (x ∷ xs) c = let later = index_from (i + 1) xs c in if eqb x c then i else later

-- base64_chars.find(c), stored in an unsigned char: `npos` becomes 255.
unfoldable pub index_of : ℕ → ℕ
unfolding index_from
index_of = index_from 0 base64_chars

-- char_array_4 from char_array_3
abbrev first : ℕ → ℕ
first a = bit_and a 0xfc / 4

abbrev second : ℕ → ℕ → ℕ
second a b = bit_and a 0x03 * 16 + bit_and b 0xf0 / 16

abbrev third : ℕ → ℕ → ℕ
third b c = bit_and b 0x0f * 4 + bit_and c 0xc0 / 64

abbrev fourth : ℕ → ℕ
fourth c = bit_and c 0x3f

-- The bytes of char_array_3 that wait for a third: `i` of them.
pub data Pending : Type 0 where
  zero_bytes : Pending
  one_byte : ℕ → Pending
  two_bytes : ℕ → ℕ → Pending

unfoldable pub quad : ℕ → ℕ → ℕ → Bytes
unfolding char_of
quad a b c =
    char_of (first a) ∷ char_of (second a b) ∷ char_of (third b c) ∷ char_of (fourth c) ∷ []

-- `if (i > 0)`: i + 1 characters of the group that is filled up by zeros, then '='.
unfoldable pub encode_end : Pending → Bytes
unfolding char_of
encode_end zero_bytes = []
encode_end (one_byte a) = char_of (first a) ∷ char_of (second a 0) ∷ b'=' ∷ b'=' ∷ []
encode_end (two_bytes a b) =
    char_of (first a) ∷ char_of (second a b) ∷ char_of (third b 0) ∷ b'=' ∷ []

-- The loop over the input; the last argument is `result`.
unfoldable pub encode_loop : Bytes → Pending → Bytes → Bytes
encode_loop [] p result = result ++ encode_end p
encode_loop (c ∷ s) zero_bytes result = encode_loop s (one_byte c) result
encode_loop (c ∷ s) (one_byte a) result = encode_loop s (two_bytes a c) result
encode_loop (c ∷ s) (two_bytes a b) result = encode_loop s zero_bytes (result ++ quad a b c)

unfoldable pub base64_encode : Bytes → Bytes
unfolding encode_loop
base64_encode input = encode_loop input zero_bytes []

-- char_array_3 from char_array_4, each an unsigned char.
abbrev byte_0 : ℕ → ℕ → ℕ
byte_0 a b = (a * 4 + bit_and b 0x30 / 16) % 256

abbrev byte_1 : ℕ → ℕ → ℕ
byte_1 b c = (bit_and b 0xf * 16 + bit_and c 0x3c / 4) % 256

abbrev byte_2 : ℕ → ℕ → ℕ
byte_2 c d = (bit_and c 0x3 * 64 + d) % 256

-- The entries of char_array_4 that wait for a fourth.
pub data Sextets : Type 0 where
  zero_chars : Sextets
  one_char : ℕ → Sextets
  two_chars : ℕ → ℕ → Sextets
  three_chars : ℕ → ℕ → ℕ → Sextets

-- `if (i > 0)`: i - 1 bytes of the group that is filled up by zeros.
unfoldable pub decode_end : Sextets → Bytes
decode_end zero_chars = []
decode_end (one_char a) = []
decode_end (two_chars a b) = byte_0 a b ∷ []
decode_end (three_chars a b c) = byte_0 a b ∷ byte_1 b c ∷ []

-- One character: the sextets that wait, and what is added to `result`.
unfoldable pub take_sextet : ℕ → Sextets → Sextets × Bytes
take_sextet x zero_chars = (one_char x, [])
take_sextet x (one_char a) = (two_chars a x, [])
take_sextet x (two_chars a b) = (three_chars a b x, [])
take_sextet x (three_chars a b c) = (zero_chars, byte_0 a b ∷ byte_1 b c ∷ byte_2 c x ∷ [])

-- The loop over the input, which ends at '='.
unfoldable pub decode_loop : Bytes → Sextets → Bytes → Bytes
decode_loop [] p result = result ++ decode_end p
decode_loop (c ∷ s) p result =
    let next = take_sextet (index_of c) p in
    let more = decode_loop s next.0 (result ++ next.1) in
    if eqb c b'=' then result ++ decode_end p else more

unfoldable pub base64_decode : Bytes → Bytes
unfolding decode_loop
base64_decode input = decode_loop input zero_chars []
