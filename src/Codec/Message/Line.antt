-- ===== src/Codec/Message/Line.antt =====
-- src/common.cpp: the line of an encoded message, without its newline, as a file and the receive
-- buffers have it.
use smallchat.Base.{
  ℕ, ◌≡◌, refl, ◌≢◌, ap, some, [], ◌∷◌, ◌++◌, append_assoc, arith, Bytes, codes, Lacks, All,
  All-append,
}
use smallchat.Codec.Base64.{base64_encode}
use smallchat.Codec.Base64.RoundTrip.{IsPlain, encode-IsPlain}
use smallchat.Codec.Message.{ChatMessage, bar, newline, encode, strip_newline, decode}
use smallchat.Codec.Message.RoundTrip.{IsSendable, received, fields_lem, All-map, print_int-IsPlain}
use smallchat.Std.Decimal.{print_int}

abbrev pub fields_of : ChatMessage → Bytes → Bytes
fields_of m end =
    m.sender
    ++ (bar
        ∷ (m.receiver
            ++ (bar ∷ (print_int m.type ++ (bar ∷ (base64_encode m.content ++ (bar ∷ end)))))))

abbrev pub message_line : ChatMessage → Bytes
message_line m = codes "MSG|" ++ fields_of m m.message_id

-- A message whose line is one line: the fields that are written as they are hold no newline.
pub record IsOneLine (m : ChatMessage) : Type 0 where
  pub sendable : IsSendable m
  pub sender_line : Lacks newline m.sender
  pub receiver_line : Lacks newline m.receiver
  pub id_line : Lacks newline m.message_id

pub encode-message_line : (m : ChatMessage) → encode m ≡ message_line m ++ (newline ∷ [])
unfolding encode
encode-message_line m = simp append_assoc

strip_newline-Lacks : (s : Bytes) → Lacks newline s → strip_newline s ≡ s
unfolding strip_newline
strip_newline-Lacks [] h = refl
strip_newline-Lacks (c ∷ []) h = ground arith
strip_newline-Lacks (c ∷ d ∷ s) h = ap (λ t. c ∷ t) (strip_newline-Lacks (d ∷ s) h.1)

pub decode-message_line :
    (now : ℕ) (m b : ChatMessage)
    → IsOneLine m
    → decode now (message_line m) b ≡ some (received now m b)
unfolding decode
decode-message_line now m b v =
    fields_lem now m b m.message_id v.sendable (strip_newline-Lacks m.message_id v.id_line)

plain_line : (s : Bytes) → All IsPlain s → Lacks newline s
plain_line s = All-map IsPlain (λ c. c ≢ newline) s (λ x h. h.1)

field-Lacks :
    (f rest : Bytes) → Lacks newline f → Lacks newline rest → Lacks newline (f ++ (bar ∷ rest))
field-Lacks f rest hf hr = All-append (λ c. c ≢ newline) f (bar ∷ rest) hf (ground arith, hr)

pub message_line-Lacks : (m : ChatMessage) → IsOneLine m → Lacks newline (message_line m)
message_line-Lacks m v =
    let content = plain_line _ (encode-IsPlain m.content v.sendable.content_bytes) in
    let kind = plain_line _ (print_int-IsPlain m.type) in
    let fields = field-Lacks m.sender _ v.sender_line (
      field-Lacks m.receiver _ v.receiver_line (
        field-Lacks (print_int m.type) _ kind
          (field-Lacks (base64_encode m.content) _ content v.id_line))) in
    (ground arith, (ground arith, (ground arith, (ground arith, fields))))
