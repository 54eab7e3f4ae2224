-- ===== src/Server/Password/Check/Xor.antt =====
-- src/server.cpp: the hashes of the branch without OpenSSL.
use smallchat.Base.{
  ℕ, zero, suc, ◌+◌, ◌%◌, ◌<◌, ◌≡◌, refl, sym, ap, subst, ◌∙◌, Bool, true, ◌&&◌, Option, some, inl,
  inr, [], ◌∷◌, arith, Bytes, bit_xor, cut, eqb, equal, equal_iff, ltb, length, ◌>>=◌, Option-cases,
  all_below, all_below_member,
}
use smallchat.Codec.Base64.RoundTrip.{IsBytes}
use smallchat.Server.Password.{
  unhex, byte_at, salt_char, xor_from, xor_derive, Derive, hash_password, verify_password,
}
use smallchat.Server.Password.Check.{
  sealed, cut-sealed, unhex-hex, verify-sealed, sealed_of_hash, some_inj,
}

-- The exclusive or of two bytes, by evaluation over all pairs.
abbrev xor_row : ℕ → ℕ → Bool
xor_row a b = eqb (bit_xor (bit_xor a b) b) a && ltb (bit_xor a b) 256

xor_table : all_below 256 (λ a. all_below 256 (xor_row a)) ≡ true
unfolding all_below
xor_table = refl

bit_xor_lem : (a b : ℕ) → a < 256 → b < 256 → (bit_xor (bit_xor a b) b ≡ a) × (bit_xor a b < 256)
bit_xor_lem a b h k =
    let row = all_below_member 256 (λ x. all_below 256 (xor_row x)) a xor_table h in
    let t = all_below_member 256 (xor_row a) b row k in ground arith

byte_at-lt : (s : Bytes) (i k : ℕ) → IsBytes s → byte_at s i ≡ some k → k < 256
unfolding byte_at
byte_at-lt [] i k h e = absurd (cc)
byte_at-lt (x ∷ s) zero k h e = ground arith
byte_at-lt (x ∷ s) (suc i) k h e = byte_at-lt s i k h.1 e

salt_char-lt : (s : Bytes) (i k : ℕ) → IsBytes s → salt_char s i ≡ some k → k < 256
unfolding salt_char
salt_char-lt s i k h e = ground (arith, byte_at-lt s i k h, byte_at-lt s (i % length s) k h)

-- Reading a hash of the XOR branch back: the salt stands in front of it.
reveal_from : ℕ → Bytes → Bytes → Option Bytes
reveal_from i [] salt = some []
reveal_from i (x ∷ hash) salt = do
  k ← salt_char salt i
  password ← reveal_from (i + 1) hash salt
  some (bit_xor (bit_xor x (i % 256)) k ∷ password)

pub reveal : Bytes → Option Bytes
unfolding reveal_from
reveal stored = do
  (stored_salt_hex, stored_hash_hex) ← cut b':' stored
  salt ← unhex stored_salt_hex
  hash ← unhex stored_hash_hex
  reveal_from 0 hash salt

reveal_byte :
    (p k i : ℕ)
    → p < 256
    → k < 256
    → bit_xor (bit_xor (bit_xor (bit_xor p k) (i % 256) % 256) (i % 256)) k ≡ p
reveal_byte p k i hp hk =
    let (back, low) = bit_xor_lem p k hp hk in
    let (back', low') = bit_xor_lem (bit_xor p k) (i % 256) low (omega arith) in
    let small : bit_xor (bit_xor p k) (i % 256) % 256 ≡ bit_xor (bit_xor p k) (i % 256) =
      omega arith in
    rw (small, back', back)

xor_step :
    (i p : ℕ) (password salt r : Bytes)
    → xor_from i (p ∷ password) salt ≡ some r
    → (k : ℕ) × (rest : Bytes) × (salt_char salt i ≡ some k)
      × (xor_from (i + 1) password salt ≡ some rest)
      × (r ≡ bit_xor (bit_xor p k) (i % 256) % 256 ∷ rest)
unfolding xor_from
xor_step i p password salt r e = elim (Option-cases (salt_char salt i)) [
  | inl none_k ↦ absurd (cc (rw none_k at e))
  | inr (k, hk) ↦ elim (Option-cases (xor_from (i + 1) password salt)) [
    | inl none_r ↦ absurd (cc (rw (hk, none_r) at e))
    | inr (rest, hr) ↦ (k, rest, hk, hr, ground arith)
  ]
]

reveal-xor :
    (i : ℕ) (password salt r : Bytes)
    → IsBytes password
    → IsBytes salt
    → xor_from i password salt ≡ some r
    → (reveal_from i r salt ≡ some password) × IsBytes r
unfolding reveal_from xor_from
reveal-xor i [] salt r hp hs e =
    let nothing : [] ≡ r = ground arith in (ground arith, subst IsBytes nothing tt)
reveal-xor i (p ∷ password) salt r hp hs e =
    let (k, rest, hk, hr, shape) = xor_step i p password salt r e in
    let (ih, bytes) = reveal-xor (i + 1) password salt rest hp.1 hs hr in
    let small = salt_char-lt salt i k hs hk in
    rw shape (rw (hk, ih, reveal_byte p k i hp.0 small), (omega arith, bytes))

-- The XOR branch hides nothing: for a password and a salt of bytes, `reveal` computes the password
-- from what is stored.
pub reveal-hash :
    (password salt stored : Bytes)
    → IsBytes password
    → IsBytes salt
    → hash_password xor_derive password salt ≡ some stored
    → reveal stored ≡ some password
unfolding reveal xor_derive
reveal-hash password salt stored hp hs e =
    let (hash, d, shape) = sealed_of_hash xor_derive password salt stored e in
    let (found, bytes) = reveal-xor 0 password salt hash hp hs d in
    rw (shape, cut-sealed salt hash hs, unhex-hex salt hs, unhex-hex hash bytes) found

verify_inversion :
    (derive : Derive) (other salt stored : Bytes)
    → (hash_password derive other salt >>= λ again. some (equal again stored)) ≡ some true
    → hash_password derive other salt ≡ some stored
verify_inversion derive other salt stored e =
    elim (Option-cases (hash_password derive other salt)) [
      | inl h ↦ absurd (cc (rw h at e))
      | inr (again, h) ↦ h ∙ ap some ((equal_iff again stored).0 (some_inj.0 (rw h at e)))
    ]

-- With the XOR branch, for passwords and a salt of bytes, no password but the one that was set is
-- accepted.
pub verify_only :
    (other password salt stored : Bytes)
    → IsBytes other
    → IsBytes password
    → IsBytes salt
    → hash_password xor_derive password salt ≡ some stored
    → verify_password xor_derive other stored ≡ some true
    → other ≡ password
verify_only other password salt stored ho hp hs e v =
    let (hash, d, shape) = sealed_of_hash xor_derive password salt stored e in
    let checked = sym (verify-sealed xor_derive other salt hash hs) ∙ (rw shape at v) in
    let again = verify_inversion xor_derive other salt (sealed salt hash) checked in
    some_inj.0 (
      sym (reveal-hash other salt (sealed salt hash) ho hs again)
      ∙ reveal-hash password salt (sealed salt hash) hp hs (rw shape at e))
