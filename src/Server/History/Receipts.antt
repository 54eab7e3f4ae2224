-- ===== src/Server/History/Receipts.antt =====
-- src/server.cpp: the length of the histories over a read receipt.
use smallchat.Base.{
  ◌≡◌, refl, ap, drop, some, List, [], ◌∷◌, Bytes, arith, inl, inr, Option-cases, lookup, nat_eq,
  bytes_eq, length, cut,
}
use smallchat.Codec.Message.{ChatMessage, bar, newline}
use smallchat.Server.History.{or_empty, room_history}
use smallchat.Server.History.Bounds.{IsBounded}
use smallchat.Server.History.Quiet.{Quiet, tell_sender-Quiet}
use smallchat.Server.Relay.{mark, receipt_global, receipt_rooms, receipt, handle_read_receipt}
use smallchat.Server.State.{Server}

-- src/server.cpp: the length of the histories over a read receipt.
mark-length :
    (i u : Bytes) (ms : List ChatMessage) (sender : Bytes) (after : List ChatMessage)
    → mark i u ms ≡ some (sender, after)
    → length after ≡ length ms
unfolding mark
mark-length i u [] sender after e = ground arith
mark-length i u (m ∷ ms) sender after e = elim (Option-cases (mark i u ms)) [
  | inl h ↦ ground arith
  | inr ((sender', rest), h) ↦ ground (arith, mark-length i u ms sender' rest h)
]

receipt_global-length :
    (i u : Bytes) (s : Server)
    → length (receipt_global i u s).message_history ≡ length s.message_history
unfolding receipt_global
receipt_global-length i u s = grind (arith, mark-length, tell_sender-Quiet)

receipt_global-rooms :
    (i u : Bytes) (s : Server)
    → (receipt_global i u s).room_message_history ≡ s.room_message_history
unfolding receipt_global
receipt_global-rooms i u s = grind (arith, tell_sender-Quiet)

receipt_rooms-Quiet :
    (i u : Bytes) (rooms : List (Bytes × List ChatMessage)) (s : Server)
    → Quiet s (receipt_rooms i u rooms s).1
unfolding receipt_rooms
receipt_rooms-Quiet i u [] s = record { history = refl; rooms = refl }
receipt_rooms-Quiet i u ((r, ms) ∷ rooms) s =
    grind (arith, tell_sender-Quiet, receipt_rooms-Quiet i u rooms)

receipt_rooms-length :
    (i u : Bytes) (rooms : List (Bytes × List ChatMessage)) (s : Server) (r : Bytes)
    → length (or_empty (lookup r (receipt_rooms i u rooms s).0))
      ≡ length (or_empty (lookup r rooms))
unfolding receipt_rooms lookup or_empty
receipt_rooms-length i u [] s r = refl
receipt_rooms-length i u ((q, ms) ∷ rooms) s r =
    grind (arith, mark-length, receipt_rooms-length i u rooms)

module _ (s : Server) (v : IsBounded s) where
  receipt-IsBounded : (i u : Bytes) → IsBounded (receipt i u s)
  unfolding receipt room_history
  receipt-IsBounded i u =
      let marked = receipt_global i u s in
      let same = receipt_rooms-Quiet i u marked.room_message_history marked in
      record {
        global = omega (arith, ap length same.history, receipt_global-length i u s, v.global);
        rooms = λ room. omega (
          arith,
          receipt_rooms-length i u marked.room_message_history marked room,
          ap (λ h. length (or_empty (lookup room h))) (receipt_global-rooms i u s),
          v.rooms room,
        );
      }

  pub handle_read_receipt-IsBounded : (l : Bytes) → IsBounded (handle_read_receipt l s)
  unfolding handle_read_receipt
  handle_read_receipt-IsBounded l = elim (Option-cases (cut bar (drop 13 l))) [
    | inl e ↦ rw (e, handle_read_receipt) v
    | inr ((message_id, rest), e) ↦
        rw (e, handle_read_receipt)
          (elim (Option-cases (cut newline rest)) [
            | inl e' ↦ rw e' v
            | inr ((user, behind), e') ↦ rw e' (receipt-IsBounded message_id user)
          ])
  ]
