-- ===== src/Codec/Base64/RoundTrip.antt =====
-- src/common.cpp: base64Decode behind base64Encode.
use mathlib.Core.Path.{ap₂}
use smallchat.Base.{
  ℕ, ◌<◌, ◌≡◌, refl, ◌∙◌, ap, sym, ◌≢◌, [], ◌∷◌, ◌++◌, append-nil, append_assoc, arith, Bytes, All,
}
use smallchat.Codec.Base64.Bits.{Masks-Masks, char_of_lem}
use smallchat.Codec.Base64.{
  char_of, first, second, third, fourth, byte_0, byte_1, byte_2, Pending, zero_bytes, one_byte,
  two_bytes, quad, encode_end, encode_loop, base64_encode, Sextets, zero_chars, one_char, two_chars,
  three_chars, decode_end, take_sextet, decode_loop, base64_decode,
}

-- A text of `char`s.
abbrev pub IsBytes : Bytes → Type 0
IsBytes = All (λ c. c < 256)

decode_char :
    (x : ℕ) (s : Bytes) (p : Sextets) (out : Bytes)
    → x < 64
    → decode_loop (char_of x ∷ s) p out
      ≡ decode_loop s (take_sextet x p).0 (out ++ (take_sextet x p).1)
unfolding decode_loop
decode_char x s p out h = let (found, other, _, _) = char_of_lem x h in rw (other, found)

-- What the two codings do to a group, as arithmetic.
group_0 : (a b : ℕ) → a < 256 → b < 256 → byte_0 (first a) (second a b) ≡ a
group_0 a b ha hb =
    let ma = Masks-Masks a ha in
    let mb = Masks-Masks b hb in let ms = Masks-Masks (second a b) (omega arith) in omega arith

group_1 : (a b c : ℕ) → a < 256 → b < 256 → c < 256 → byte_1 (second a b) (third b c) ≡ b
group_1 a b c ha hb hc =
    let ma = Masks-Masks a ha in
    let mb = Masks-Masks b hb in
    let mc = Masks-Masks c hc in
    let ms = Masks-Masks (second a b) (omega arith) in
    let mt = Masks-Masks (third b c) (omega arith) in omega arith

group_2 : (b c : ℕ) → b < 256 → c < 256 → byte_2 (third b c) (fourth c) ≡ c
group_2 b c hb hc =
    let mb = Masks-Masks b hb in
    let mc = Masks-Masks c hc in let mt = Masks-Masks (third b c) (omega arith) in omega arith

first-lt : (a : ℕ) → a < 256 → first a < 64
first-lt a h = let m = Masks-Masks a h in omega arith

second-lt : (a b : ℕ) → a < 256 → b < 256 → second a b < 64
second-lt a b h k = let m = Masks-Masks a h in let m' = Masks-Masks b k in omega arith

third-lt : (b c : ℕ) → b < 256 → c < 256 → third b c < 64
third-lt b c h k = let m = Masks-Masks b h in let m' = Masks-Masks c k in omega arith

fourth-lt : (c : ℕ) → c < 256 → fourth c < 64
fourth-lt c h = let m = Masks-Masks c h in omega arith

decode-quad :
    (a b c : ℕ) (s out : Bytes)
    → a < 256
    → b < 256
    → c < 256
    → decode_loop (quad a b c ++ s) zero_chars out
      ≡ decode_loop s zero_chars (out ++ (a ∷ b ∷ c ∷ []))
unfolding quad take_sextet
decode-quad a b c s out ha hb hc = rw (
  decode_char (first a) _ zero_chars out (first-lt a ha),
  append-nil,
  decode_char (second a b) _ (one_char (first a)) out (second-lt a b ha hb),
  append-nil,
  decode_char (third b c) _ (two_chars (first a) (second a b)) out (third-lt b c hb hc),
  append-nil,
  decode_char (fourth c) s (three_chars (first a) (second a b) (third b c)) out (fourth-lt c hc),
  group_0 a b ha hb,
  group_1 a b c ha hb hc,
  group_2 b c hb hc,
)

-- The bytes that wait.
abbrev waiting : Pending → Bytes
waiting zero_bytes = []
waiting (one_byte a) = a ∷ []
waiting (two_bytes a b) = a ∷ b ∷ []

decode-encode_end :
    (p : Pending) (out : Bytes)
    → IsBytes (waiting p)
    → decode_loop (encode_end p) zero_chars out ≡ out ++ waiting p
unfolding encode_end take_sextet
decode-encode_end zero_bytes out h = unfold decode_loop decode_end in refl
decode-encode_end (one_byte a) out h =
    rw
      (
        decode_char (first a) _ zero_chars out (first-lt a h.0),
        append-nil,
        decode_char (second a 0) _ (one_char (first a)) out (second-lt a 0 h.0 (omega arith)),
        append-nil,
      )
      (unfold decode_loop decode_end in ap (λ x. out ++ (x ∷ [])) (group_0 a 0 h.0 (omega arith)))
decode-encode_end (two_bytes a b) out h =
    rw
      (
        decode_char (first a) _ zero_chars out (first-lt a h.0),
        append-nil,
        decode_char (second a b) _ (one_char (first a)) out (second-lt a b h.0 h.1.0),
        append-nil,
        decode_char (third b 0) _ (two_chars (first a) (second a b)) out
            (third-lt b 0 h.1.0 (omega arith)),
        append-nil,
      )
      (unfold decode_loop decode_end in
        ap₂ (λ x y. out ++ (x ∷ y ∷ [])) (group_0 a b h.0 h.1.0)
          (group_1 a b 0 h.0 h.1.0 (omega arith)))

-- The accumulator of the encoding only grows.
encode_loop-append :
    (s : Bytes) (p : Pending) (out : Bytes) → encode_loop s p out ≡ out ++ encode_loop s p []
unfolding encode_loop
encode_loop-append [] p out = refl
encode_loop-append (c ∷ s) zero_bytes out = encode_loop-append s (one_byte c) out
encode_loop-append (c ∷ s) (one_byte a) out = encode_loop-append s (two_bytes a c) out
encode_loop-append (c ∷ s) (two_bytes a b) out =
    encode_loop-append s zero_bytes (out ++ quad a b c)
    ∙ append_assoc out (quad a b c) _
    ∙ ap (◌++◌ out) (sym (encode_loop-append s zero_bytes (quad a b c)))

decode-encode_loop :
    (s : Bytes) (p : Pending) (out : Bytes)
    → IsBytes (waiting p)
    → IsBytes s
    → decode_loop (encode_loop s p []) zero_chars out ≡ out ++ (waiting p ++ s)
unfolding encode_loop
decode-encode_loop [] p out hp hs = rw append-nil (decode-encode_end p out hp)
decode-encode_loop (c ∷ s) zero_bytes out hp hs =
    decode-encode_loop s (one_byte c) out (hs.0, tt) hs.1
decode-encode_loop (c ∷ s) (one_byte a) out hp hs =
    decode-encode_loop s (two_bytes a c) out (hp.0, (hs.0, tt)) hs.1
decode-encode_loop (c ∷ s) (two_bytes a b) out hp hs =
    rw (encode_loop-append s zero_bytes (quad a b c)) (
      decode-quad a b c (encode_loop s zero_bytes []) out hp.0 hp.1.0 hs.0
      ∙ decode-encode_loop s zero_bytes (out ++ (a ∷ b ∷ c ∷ [])) tt hs.1
      ∙ append_assoc out (a ∷ b ∷ c ∷ []) s)

-- Decoding the encoding of a text of bytes, of any length and content, gives the text back.
pub decode-encode : (s : Bytes) → IsBytes s → base64_decode (base64_encode s) ≡ s
unfolding base64_encode base64_decode
decode-encode s h = decode-encode_loop s zero_bytes [] tt h

-- No field separator and no line separator.
abbrev pub IsPlain : ℕ → Type 0
IsPlain c = (c ≢ b'|') × (c ≢ b'\n')

char_of-IsPlain : (x : ℕ) → x < 64 → IsPlain (char_of x)
char_of-IsPlain x h = let (_, _, bar, line) = char_of_lem x h in (bar, line)

encode_end-IsPlain : (p : Pending) → IsBytes (waiting p) → All IsPlain (encode_end p)
unfolding encode_end
encode_end-IsPlain zero_bytes h = tt
encode_end-IsPlain (one_byte a) h =
    let x = char_of-IsPlain _ (first-lt a h.0) in
    let y = char_of-IsPlain _ (second-lt a 0 h.0 (omega arith)) in (x, (y, omega arith))
encode_end-IsPlain (two_bytes a b) h =
    let x = char_of-IsPlain _ (first-lt a h.0) in
    let y = char_of-IsPlain _ (second-lt a b h.0 h.1.0) in
    let z = char_of-IsPlain _ (third-lt b 0 h.1.0 (omega arith)) in (x, (y, (z, omega arith)))

encode_loop-IsPlain :
    (s : Bytes) (p : Pending) → IsBytes (waiting p) → IsBytes s → All IsPlain (encode_loop s p [])
unfolding encode_loop quad
encode_loop-IsPlain [] p hp hs = encode_end-IsPlain p hp
encode_loop-IsPlain (c ∷ s) zero_bytes hp hs = encode_loop-IsPlain s (one_byte c) (hs.0, tt) hs.1
encode_loop-IsPlain (c ∷ s) (one_byte a) hp hs =
    encode_loop-IsPlain s (two_bytes a c) (hp.0, (hs.0, tt)) hs.1
encode_loop-IsPlain (c ∷ s) (two_bytes a b) hp hs =
    rw (encode_loop-append s zero_bytes (quad a b c)) (
      char_of-IsPlain _ (first-lt a hp.0),
      (
        char_of-IsPlain _ (second-lt a b hp.0 hp.1.0),
        (
          char_of-IsPlain _ (third-lt b c hp.1.0 hs.0),
          (char_of-IsPlain _ (fourth-lt c hs.0), encode_loop-IsPlain s zero_bytes tt hs.1),
        ),
      ),
    )

-- The encoding of a text of bytes holds no '|' and no newline, whatever the text holds.
pub encode-IsPlain : (s : Bytes) → IsBytes s → All IsPlain (base64_encode s)
unfolding base64_encode
encode-IsPlain s h = encode_loop-IsPlain s zero_bytes tt h
