-- ===== src/Server/Password/Check.antt =====
-- src/server.cpp: verifyPassword on what hashPassword made.
pub mod Xor
use mathlib.Core.Option.{some_inj}
use smallchat.Base.{
  ℕ, zero, suc, ◌+◌, ◌/◌, ◌%◌, ◌<◌, ◌≡◌, ◌≢◌, refl, sym, ap, subst, ◌∙◌, Bool, true, false, ◌&&◌,
  Option, none, some, inl, inr, [], ◌∷◌, ◌++◌, arith, Bytes, bit_xor, cut, cut_at_sep, Lacks, eqb,
  equal, equal_iff, ltb, length, ◌>>=◌, Option-cases, all_below, all_below_member,
}
use smallchat.Codec.Base64.RoundTrip.{IsBytes}
use smallchat.Std.Decimal.{is_space}
use smallchat.Server.Password.{
  hex, hex_digit, unhex, stoi_hex_byte, byte_at, salt_char, xor_from, xor_derive, Derive,
  hash_password, verify_password,
}

-- Hexadecimal, by evaluation over all bytes.
abbrev hex_ok : ℕ → Bool
hex_ok b = elim (stoi_hex_byte (hex_digit (b / 16) ∷ hex_digit (b % 16) ∷ [])) [
  | none ↦ false
  | some c ↦ eqb c b
]

abbrev hex_text : ℕ → Bool
hex_text b = elim (eqb (hex_digit b) b':') [ true ↦ false | false ↦ ltb (hex_digit b) 127 ]

hex_table : all_below 256 hex_ok ≡ true
unfolding all_below hex_digit stoi_hex_byte is_space
hex_table = refl

text_table : all_below 16 hex_text ≡ true
unfolding all_below hex_digit
text_table = refl

stoi_hex_byte-hex :
    (b : ℕ) → b < 256 → stoi_hex_byte (hex_digit (b / 16) ∷ hex_digit (b % 16) ∷ []) ≡ some b
stoi_hex_byte-hex b h = let t = all_below_member 256 hex_ok b hex_table h in ground arith

hex_digit-ne-colon : (d : ℕ) → d < 16 → hex_digit d ≢ b':'
hex_digit-ne-colon d h = let t = all_below_member 16 hex_text d text_table h in ground arith

hex-Lacks : (s : Bytes) → IsBytes s → Lacks b':' (hex s)
unfolding hex
hex-Lacks [] h = tt
hex-Lacks (b ∷ s) h =
    let high = hex_digit-ne-colon (b / 16) (omega arith) in
    let low = hex_digit-ne-colon (b % 16) (omega arith) in (high, (low, hex-Lacks s h.1))

unhex-hex : (s : Bytes) → IsBytes s → unhex (hex s) ≡ some s
unfolding unhex hex
unhex-hex [] h = refl
unhex-hex (b ∷ s) h = rw (stoi_hex_byte-hex b h.0, unhex-hex s h.1)

abbrev sealed : Bytes → Bytes → Bytes
sealed salt hash = hex salt ++ (b':' ∷ hex hash)

cut-sealed :
    (salt hash : Bytes) → IsBytes salt → cut b':' (sealed salt hash) ≡ some (hex salt, hex hash)
cut-sealed salt hash h = cut_at_sep b':' (hex salt) (hex hash) (hex-Lacks salt h)

module _ (derive : Derive) where
  hash-sealed :
      (password salt hash : Bytes)
      → derive password salt ≡ some hash
      → hash_password derive password salt ≡ some (sealed salt hash)
  unfolding hash_password
  hash-sealed password salt hash e = rw e

  -- A stored hash is checked by hashing again with the salt that it starts with.
  verify-sealed :
      (other salt hash : Bytes)
      → IsBytes salt
      → verify_password derive other (sealed salt hash)
        ≡ (hash_password derive other salt >>= λ again. some (equal again (sealed salt hash)))
  unfolding verify_password hash_password
  verify-sealed other salt hash h =
      rw (cut-sealed salt hash h, verify_password) (verify_salt (unhex-hex salt h))
    where
      verify_salt :
          unhex (hex salt) ≡ some salt
          → (unhex (hex salt) >>= λ s.
              hash_password derive other s >>= λ again. some (equal again (sealed salt hash)))
            ≡ (hash_password derive other salt >>= λ again. some (equal again (sealed salt hash)))
      verify_salt e = rw e

  -- The inverse of `hash-sealed`.
  sealed_of_hash :
      (password salt stored : Bytes)
      → hash_password derive password salt ≡ some stored
      → (hash : Bytes) × (derive password salt ≡ some hash) × (stored ≡ sealed salt hash)
  unfolding hash_password
  sealed_of_hash password salt stored e = elim (Option-cases (derive password salt)) [
    | inl d ↦ absurd (ground arith)
    | inr (hash, d) ↦ (hash, d, ground arith)
  ]

  -- The password that a hash was made from is accepted, for every derivation and every salt of
  -- bytes.
  pub verify-hash :
      (password salt stored : Bytes)
      → IsBytes salt
      → hash_password derive password salt ≡ some stored
      → verify_password derive password stored ≡ some true
  verify-hash password salt stored h e =
      let (hash, d, s) = sealed_of_hash password salt stored e in
      rw s (
        verify-sealed password salt hash h
        ∙ rw (hash-sealed password salt hash d)
            (ap some ((equal_iff (sealed salt hash) (sealed salt hash)).1 refl)))
