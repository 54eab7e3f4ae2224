-- ===== src/Codec/Base64/Bits.antt =====
-- The bit fields of the two codings, by evaluation over all bytes.
use Prim.Native.Nat.{bit_and}
use smallchat.Base.{
  all_below, all_below_member, ℕ, ◌*◌, ◌/◌, ◌%◌, ◌<◌, ◌≡◌, refl, Bool, true, ◌&&◌, arith, eqb, not,
  false, ◌≢◌,
}
use smallchat.Codec.Base64.{char_of, index_of}

abbrev masks : ℕ → Bool
masks x =
    eqb (bit_and x 0xfc) (x / 4 * 4)
    && eqb (bit_and x 0x03) (x % 4)
    && eqb (bit_and x 0xf0) (x / 16 * 16)
    && eqb (bit_and x 0x0f) (x % 16)
    && eqb (bit_and x 0xc0) (x / 64 * 64)
    && eqb (bit_and x 0x3f) (x % 64)
    && eqb (bit_and x 0x30) (x / 16 % 4 * 16)
    && eqb (bit_and x 0x3c) (x / 4 % 16 * 4)

masks_table : all_below 256 masks ≡ true
unfolding all_below
masks_table = refl

pub record Masks (x : ℕ) : Type 0 where
  pub m_fc : bit_and x 0xfc ≡ x / 4 * 4
  pub m_03 : bit_and x 0x03 ≡ x % 4
  pub m_f0 : bit_and x 0xf0 ≡ x / 16 * 16
  pub m_0f : bit_and x 0x0f ≡ x % 16
  pub m_c0 : bit_and x 0xc0 ≡ x / 64 * 64
  pub m_3f : bit_and x 0x3f ≡ x % 64
  pub m_30 : bit_and x 0x30 ≡ x / 16 % 4 * 16
  pub m_3c : bit_and x 0x3c ≡ x / 4 % 16 * 4

pub Masks-Masks : (x : ℕ) → x < 256 → Masks x
Masks-Masks x h = let t = all_below_member 256 masks x masks_table h in ground arith

abbrev char_ok : ℕ → Bool
char_ok x =
    eqb (index_of (char_of x)) x
    && not (eqb (char_of x) b'=')
    && not (eqb (char_of x) b'|')
    && not (eqb (char_of x) b'\n')

chars_table : all_below 64 char_ok ≡ true
unfolding all_below char_of index_of
chars_table = refl

-- Each of the 64 characters is found at its own index, and is none of '=', '|' and newline.
pub char_of_lem :
    (x : ℕ)
    → x < 64
    → (index_of (char_of x) ≡ x)
      × (eqb (char_of x) b'=' ≡ false)
      × (char_of x ≢ b'|')
      × (char_of x ≢ b'\n')
char_of_lem x h = let t = all_below_member 64 char_ok x chars_table h in ground arith
