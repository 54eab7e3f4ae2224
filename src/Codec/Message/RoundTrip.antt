-- ===== src/Codec/Message/RoundTrip.antt =====
-- src/common.cpp: ChatProtocol::decode behind ChatProtocol::encode.
use smallchat.Base.{
  ℕ, suc, ◌≡◌, refl, ◌≢◌, true, some, List, [], ◌∷◌, ◌++◌, arith, Bytes, cut_at_sep, Lacks, All,
}
use smallchat.Codec.Base64.{base64_encode}
use smallchat.Codec.Base64.RoundTrip.{IsBytes, IsPlain, decode-encode, encode-IsPlain}
use smallchat.Codec.Message.{
  ChatMessage, bar, newline, encode, strip_newline, decode_fields, decode,
}
use smallchat.Std.Decimal.{
  ℤ, pos, negsuc, FitsInt, print, print_int, is_digit, print-IsDigit, stoi-print_int,
}

-- What the format asks of a message: no separator in the two names, and a type that is an `int`.
pub record IsSendable (m : ChatMessage) : Type 0 where
  pub sender_plain : Lacks bar m.sender
  pub receiver_plain : Lacks bar m.receiver
  pub type_fits : FitsInt m.type
  pub content_bytes : IsBytes m.content

pub All-map {ℓ κ ι} :
    {A : Type ℓ} (P : A → Type κ) (Q : A → Type ι) (xs : List A)
    → ((x : A) → P x → Q x)
    → All P xs
    → All Q xs
All-map P Q [] f h = tt
All-map P Q (x ∷ xs) f h = (f x h.0, All-map P Q xs f h.1)

digit-IsPlain : (c : ℕ) → is_digit c ≡ true → IsPlain c
digit-IsPlain c h = ground arith

pub print_int-IsPlain : (t : ℤ) → All IsPlain (print_int t)
unfolding print_int
print_int-IsPlain (pos n) = All-map _ _ (print n) digit-IsPlain (print-IsDigit n)
print_int-IsPlain (negsuc n) =
    (omega arith, All-map _ _ (print (suc n)) digit-IsPlain (print-IsDigit (suc n)))

pub IsPlain-Lacks-bar : (s : Bytes) → All IsPlain s → Lacks bar s
IsPlain-Lacks-bar s = All-map IsPlain (λ c. c ≢ bar) s (λ x h. h.0)

strip_newline-newline : (s : Bytes) → strip_newline (s ++ (newline ∷ [])) ≡ s
unfolding strip_newline
strip_newline-newline [] = refl
strip_newline-newline (c ∷ []) = refl
strip_newline-newline (c ∷ d ∷ s) = rw (strip_newline-newline (d ∷ s))

-- The fields that travel, put into `b`.
abbrev pub received : ℕ → ChatMessage → ChatMessage → ChatMessage
received now m b = record b {
  sender = m.sender;
  receiver = m.receiver;
  type = m.type;
  content = m.content;
  message_id = m.message_id;
  timestamp = now;
}

pub fields_lem :
    (now : ℕ) (m b : ChatMessage) (end : Bytes)
    → IsSendable m
    → strip_newline end ≡ m.message_id
    → decode_fields now b (
        m.sender
        ++ (bar
            ∷ (m.receiver
                ++ (bar ∷ (print_int m.type ++ (bar ∷ (base64_encode m.content ++ (bar ∷ end))))))))
      ≡ some (received now m b)
unfolding decode_fields
fields_lem now m b end v e = rw (
  cut_at_sep bar m.sender _ v.sender_plain,
  cut_at_sep bar m.receiver _ v.receiver_plain,
  cut_at_sep bar (print_int m.type) _ (IsPlain-Lacks-bar _ (print_int-IsPlain m.type)),
  stoi-print_int m.type v.type_fits,
  cut_at_sep bar (base64_encode m.content) end
      (IsPlain-Lacks-bar _ (encode-IsPlain m.content v.content_bytes)),
  decode-encode m.content v.content_bytes,
  e,
)

-- A message whose sender and receiver hold no '|', whose type is an `int` and whose content is
-- made of bytes is decoded to its own fields and the time of the decoding.
pub decode-encode_message :
    (now : ℕ) (m b : ChatMessage) → IsSendable m → decode now (encode m) b ≡ some (received now m b)
unfolding decode encode
decode-encode_message now m b v = fields_lem now m b _ v (strip_newline-newline m.message_id)
