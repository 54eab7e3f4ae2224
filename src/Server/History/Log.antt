-- ===== src/Server/History/Log.antt =====
-- src/server.cpp: the histories against a log that forgets nothing.
use smallchat.Base.{
  ℕ, zero, suc, ◌+◌, ◌-◌, ◌≤◌, ◌≡◌, refl, ap, ◌∙◌, sym, not, ◌&&◌, List, [], ◌∷◌, ◌++◌, append-nil,
  append_assoc, Bytes, arith, length, drop, length-append, length-drop, is_empty, equal, equal_iff,
  if◌then◌else◌, lookup-insert, bytes_eq, ltb, Bool-cases, inl, inr,
}
use smallchat.Codec.Message.{ChatMessage, MessageType}
use smallchat.Server.History.{
  push_bounded, or_empty, room_history, add_message_to_history, has_type,
}
use smallchat.Server.History.Bounds.{IsBounded, add_message_to_history-IsBounded}
use smallchat.Server.State.{Server}

-- The last `n` members.
abbrev pub latest : ℕ → List ChatMessage → List ChatMessage
latest n h = drop (length h - n) h

-- addMessageToHistory for one message after another.
unfoldable pub record_all : List ChatMessage → Server → Server
record_all [] s = s
record_all (m ∷ ms) s = record_all ms (add_message_to_history m s)

-- The messages to a room, in their order.
unfoldable pub to_room : Bytes → List ChatMessage → List ChatMessage
to_room room [] = []
to_room room (m ∷ ms) =
    let rest = to_room room ms in
    if not (is_empty m.receiver) && has_type m MessageType.room_message && equal m.receiver room
    then m ∷ rest
    else rest

drop-append : (k : ℕ) (h ms : List ChatMessage) → k ≤ length h → drop k (h ++ ms) ≡ drop k h ++ ms
drop-append zero h ms b = refl
drop-append (suc k) [] ms b = absurd (omega (arith, b))
drop-append (suc k) (x ∷ h) ms b = drop-append k h ms (omega (arith, b))

drop_eq : {i j : ℕ} (h : List ChatMessage) → i ≡ j → drop i h ≡ drop j h
drop_eq h e = ap (λ k. drop k h) e

drop_nil : (i : ℕ) → [] ≡ drop {A = ChatMessage} i []
drop_nil zero = refl
drop_nil (suc i) = refl

drop-drop : (i j : ℕ) (h : List ChatMessage) → drop i (drop j h) ≡ drop (j + i) h
drop-drop i zero h = drop_eq h (omega arith)
drop-drop zero (suc j) h = drop_eq {i = suc j} h (omega arith)
drop-drop (suc i) (suc j) [] = drop_nil (suc j + suc i)
drop-drop (suc i) (suc j) (x ∷ h) =
    drop-drop (suc i) j h ∙ drop_eq {i = suc (j + suc i)} {j = suc j + suc i} (x ∷ h) (omega arith)

push-latest :
    (n : ℕ) (h : List ChatMessage) (m : ChatMessage)
    → length h ≤ n
    → push_bounded n h m ≡ latest n (h ++ (m ∷ []))
unfolding push_bounded
push-latest n h m b =
    let size = length-append h (m ∷ []) in
    elim (Bool-cases (ltb n (length (h ++ (m ∷ []))))) [
      | inl long ↦ rw long (drop_eq {i = 1} (h ++ (m ∷ [])) (ground arith))
      | inr short ↦ rw short (drop_eq {i = 0} (h ++ (m ∷ [])) (ground arith))
    ]

pub latest_short : (n : ℕ) (h : List ChatMessage) → length h ≤ n → latest n h ≡ h
latest_short n h b = drop_eq {j = 0} h (omega arith)

latest_nil : (n : ℕ) (h : List ChatMessage) → length h ≤ n → h ≡ latest n (h ++ [])
latest_nil n h b = sym (rw append-nil (latest_short n h b))

to_room-cons :
    (room : Bytes) (m : ChatMessage) (ms : List ChatMessage)
    → to_room room (m ∷ ms) ≡ to_room room (m ∷ []) ++ to_room room ms
unfolding to_room
to_room-cons room m ms = ground arith

latest-latest : (n : ℕ) (h ms : List ChatMessage) → latest n (latest n h ++ ms) ≡ latest n (h ++ ms)
latest-latest n h ms =
    let k = length h - n in
    let all = h ++ ms in
    let size = length-append h ms in
    rw (← drop-append k h ms (omega arith)) (
      drop-drop (length (drop k all) - n) k all
      ∙ drop_eq all (omega (arith, length-drop k all, size)))

pub record_all-IsBounded :
    (ms : List ChatMessage) (s : Server) → IsBounded s → IsBounded (record_all ms s)
unfolding record_all
record_all-IsBounded [] s v = v
record_all-IsBounded (m ∷ ms) s v =
    record_all-IsBounded ms _ (add_message_to_history-IsBounded m s v)

module _ (m : ChatMessage) (s : Server) (v : IsBounded s) where
  add-latest :
      (add_message_to_history m s).message_history ≡ latest 1000 (s.message_history ++ (m ∷ []))
  unfolding add_message_to_history
  add-latest = ground (arith, push-latest 1000 s.message_history m v.global)

  add-latest_room :
      (room : Bytes)
      → room_history room (add_message_to_history m s)
        ≡ latest 1000 (room_history room s ++ to_room room (m ∷ []))
  unfolding add_message_to_history room_history or_empty to_room
  add-latest_room room =
      let push = push-latest 1000 (room_history m.receiver s) m (v.rooms m.receiver) in
      ground (
        arith,
        latest_short 1000 (room_history room s) (v.rooms room),
        append-nil (room_history room s),
        lookup-insert m.receiver room (push_bounded 1000 (room_history m.receiver s) m)
            s.room_message_history,
        equal_iff m.receiver room,
      )

-- The histories refine a log without bound: if no history was longer than 1000 messages, each history
-- holds after any messages the last 1000 of what was there and what came, in order, the global one of
-- all and the one of a room of those to this room.
pub record_all-latest :
    (ms : List ChatMessage) (s : Server) (room : Bytes)
    → IsBounded s
    → ((record_all ms s).message_history ≡ latest 1000 (s.message_history ++ ms))
      × (room_history room (record_all ms s) ≡ latest 1000 (room_history room s ++ to_room room ms))
unfolding record_all
record_all-latest [] s room v = (
  latest_nil 1000 s.message_history v.global,
  unfold to_room in latest_nil 1000 (room_history room s) (v.rooms room),
)
record_all-latest (m ∷ ms) s room v =
    let (all, own) = record_all-latest ms _ room (add_message_to_history-IsBounded m s v) in
    (
      all
          ∙ ap (λ h. latest 1000 (h ++ ms)) (add-latest m s v)
          ∙ latest-latest 1000 (s.message_history ++ (m ∷ [])) ms
          ∙ ap (latest 1000) (append_assoc s.message_history (m ∷ []) ms),
      own
          ∙ ap (λ h. latest 1000 (h ++ to_room room ms)) (add-latest_room m s v room)
          ∙ latest-latest 1000 (room_history room s ++ to_room room (m ∷ [])) (to_room room ms)
          ∙ ap (latest 1000) (
              append_assoc (room_history room s) (to_room room (m ∷ [])) (to_room room ms)
              ∙ ap (λ h. room_history room s ++ h) (sym (to_room-cons room m ms))),
    )
