-- ===== src/Server/Relay/Ignored.antt =====
-- src/server.cpp, handleClient: the lines about files and receipts.
use smallchat.Base.{
  ℕ, zero, suc, subst, Bool-cases, eqb, ◌≡◌, some, [], ◌∷◌, Bytes, arith, ◌⊎◌, inl, inr, cut, drop,
  Lacks, cut-Lacks, Option-cases,
}
use smallchat.Codec.Message.{newline, bar}
use smallchat.Server.Line.{Kind, kind_of, run_kind, handle_line}
use smallchat.Server.Relay.{
  skipped, malformed, transfer_fields, request_fields, response_fields, data_fields, relay,
  handle_file_transfer, handle_file_request, handle_file_response, handle_file_data,
  handle_read_receipt,
}
use smallchat.Server.State.{Server, Env, throws, returns, stops}

drop-Lacks : (b n : ℕ) (s : Bytes) → Lacks b s → Lacks b (drop n s)
drop-Lacks b zero s h = h
drop-Lacks b (suc n) [] h = h
drop-Lacks b (suc n) (c ∷ s) (p, h) = drop-Lacks b n s h

-- What is behind a separator lacks what the text lacks.
cut_rest : (b sep : ℕ) (s f r : Bytes) → Lacks b s → cut sep s ≡ some (f, r) → Lacks b r
unfolding cut
cut_rest b sep [] f r h e = ground arith
cut_rest b sep (c ∷ s) f r h e = elim (Option-cases (cut sep s)) [
  | inl e' ↦ (let same : s ≡ r = ground arith in subst (Lacks b) same h.1)
  | inr ((f', r'), e') ↦ elim (Bool-cases (eqb c sep)) [
    | inl here ↦ (let same : s ≡ r = ground arith in subst (Lacks b) same h.1)
    | inr later ↦
        (let same : r' ≡ r = ground arith in subst (Lacks b) same (cut_rest b sep s f' r' h.1 e'))
  ]
]

-- No chain of fields that ends at a newline comes to its end.
module _ (s : Bytes) (h : Lacks newline s) where
  transfer_fields_skip : transfer_fields s ≡ skipped
  unfolding transfer_fields
  transfer_fields_skip = grind (arith, cut_rest newline bar, cut-Lacks newline)

  request_fields_skip : request_fields s ≡ skipped
  unfolding request_fields
  request_fields_skip = grind (arith, cut_rest newline bar, cut-Lacks newline)

  response_fields_skip : response_fields s ≡ skipped
  unfolding response_fields
  response_fields_skip = grind (arith, cut_rest newline bar, cut-Lacks newline)

  -- The number of FILE_DATA is read before the last fields are looked for.
  data_fields_skip : (data_fields s ≡ skipped) ⊎ (data_fields s ≡ malformed)
  unfolding data_fields
  data_fields_skip = grind (arith, cut_rest newline bar, cut-Lacks newline)

  receipt_skip : (t : Server) → Lacks newline (drop 13 s) → handle_read_receipt s t ≡ t
  unfolding handle_read_receipt
  receipt_skip t h' = grind (arith, cut_rest newline bar, cut-Lacks newline)

-- A line without a newline that starts with FILE_TRANSFER, FILE_REQUEST, FILE_RESPONSE or
-- READ_RECEIPT changes nothing and sends nothing.
pub handle_line_ignored :
    (env : Env) (fd : ℕ) (l : Bytes) (s : Server)
    → Lacks newline l
    → (kind_of l ≡ Kind.file_transfer)
      ⊎ ((kind_of l ≡ Kind.file_request)
          ⊎ ((kind_of l ≡ Kind.file_response) ⊎ (kind_of l ≡ Kind.read_receipt)))
    → handle_line env fd l s ≡ returns s
unfolding handle_line run_kind handle_file_transfer handle_file_request handle_file_response relay
handle_line_ignored env fd l s h kind = ground (
  arith,
  transfer_fields_skip (drop 14 l) (drop-Lacks newline 14 l h),
  request_fields_skip (drop 13 l) (drop-Lacks newline 13 l h),
  response_fields_skip (drop 14 l) (drop-Lacks newline 14 l h),
  receipt_skip l h s (drop-Lacks newline 13 l h),
)

-- A line without a newline that starts with FILE_DATA changes nothing and sends nothing, or it ends
-- the server with an exception.
pub handle_line_file_data :
    (env : Env) (fd : ℕ) (l : Bytes) (s : Server)
    → Lacks newline l
    → kind_of l ≡ Kind.file_data
    → (handle_line env fd l s ≡ returns s) ⊎ (handle_line env fd l s ≡ stops throws s)
unfolding handle_line run_kind handle_file_data relay
handle_line_file_data env fd l s h kind =
    ground (arith, data_fields_skip (drop 10 l) (drop-Lacks newline 10 l h))
