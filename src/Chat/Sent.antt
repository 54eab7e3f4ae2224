-- ===== src/Chat/Sent.antt =====
-- src/server.cpp: to which sockets a frame is sent.
use mathlib.Core.List.{map-append}
use smallchat.Base.{
  ℕ, ◌≡◌, refl, ◌∙◌, ap, sym, some, List, [], ◌∷◌, ◌++◌, map, append_assoc, append-nil, Bytes,
  arith, lookup, nat_eq, bytes_eq, eqb, eqb_iff, Bool-cases, inl, inr,
}
use smallchat.Chat.{Sends}
use smallchat.Codec.Message.{ChatMessage, MessageType, encode}
use smallchat.Server.History.{add_message_to_history}
use smallchat.Server.Messages.{say_to_all, say_in_room}
use smallchat.Server.Talk.{message_of}
use smallchat.Server.Registry.Lines.{if_all}
use smallchat.Server.Send.{broadcast, send_each, notify, emit, room_sockets}
use smallchat.Server.State.{
  ClientInfo, ChatRoom, Event, sends, broadcasts_web, notifies, Server, Env,
}

-- Where an element stands in a list.
abbrev pub Stands : ℕ → List ℕ → Type 0
Stands k ks = (before : List ℕ) × ((after : List ℕ) × (ks ≡ before ++ (k ∷ after)))

Stands-lookup :
    (fd : ℕ) (clients : List (ℕ × ClientInfo)) (d : ClientInfo)
    → lookup fd clients ≡ some d
    → Stands fd (map (λ entry. entry.0) clients)
unfolding lookup
Stands-lookup fd [] d e = absurd (ground arith)
Stands-lookup fd ((k, c) ∷ clients) d e = elim (Bool-cases (eqb k fd)) [
  | inl same ↦ (
    [],
    (
      map (λ entry. entry.0) clients,
      ap (λ x. x ∷ map (λ entry. entry.0) clients) ((eqb_iff k fd).0 same),
    ),
  )
  | inr other ↦
      let (before, (after, split)) = Stands-lookup fd clients d (ground (arith, e, other)) in
      (k ∷ before, (after, ap (λ x. k ∷ x) split))
]

abbrev frames : Bytes → List ℕ → List Event
frames frame = map (λ k. sends k frame)

pub send_each-Sends :
    (fd : ℕ) (fds : List ℕ) (frame : Bytes) (s : Server)
    → Stands fd fds
    → Sends fd frame s (send_each fds frame s)
send_each-Sends fd fds frame s (before, (after, e)) = (
  frames frame before,
  (
    frames frame after,
    ap (λ ks. s.out ++ frames frame ks) e
        ∙ ap (λ es. s.out ++ es) (map-append (λ k. sends k frame) before (fd ∷ after)),
  ),
)

-- A step that only adds to what was sent keeps that a frame was sent.
Sends-later :
    (fd : ℕ) (frame : Bytes) (s v u : Server) (more : List Event)
    → u.out ≡ v.out ++ more
    → Sends fd frame s v
    → Sends fd frame s u
Sends-later fd frame s v u more e (before, (after, f)) = (
  before,
  (
    after ++ more,
    e
        ∙ ap (λ o. o ++ more) f
        ∙ append_assoc s.out (before ++ (sends fd frame ∷ after)) more
        ∙ ap (λ es. s.out ++ es) (append_assoc before (sends fd frame ∷ after) more),
  ),
)

-- So does one in front.
pub Sends-earlier :
    (fd : ℕ) (frame : Bytes) (s v u : Server) (first : List Event)
    → v.out ≡ s.out ++ first
    → Sends fd frame v u
    → Sends fd frame s u
Sends-earlier fd frame s v u first e (before, (after, f)) = (
  first ++ before,
  (
    after,
    f
        ∙ ap (λ o. o ++ (before ++ (sends fd frame ∷ after))) e
        ∙ append_assoc s.out first (before ++ (sends fd frame ∷ after))
        ∙ ap (λ es. s.out ++ es) (sym (append_assoc first before (sends fd frame ∷ after))),
  ),
)

-- broadcast sends to every client of the table.
pub broadcast-Sends :
    (fd : ℕ) (d : ClientInfo) (frame : Bytes) (s : Server)
    → lookup fd s.clients ≡ some d
    → Sends fd frame s (broadcast frame s)
unfolding broadcast
broadcast-Sends fd d frame s e =
    let each = send_each (map (λ entry. entry.0) s.clients) frame s in
    let sent =
      send_each-Sends fd (map (λ entry. entry.0) s.clients) frame s
        (Stands-lookup fd s.clients d e) in
    elim (Bool-cases s.web_broadcast_callback) [
      | inl web ↦ rw web (
          Sends-later fd frame s each (emit (broadcasts_web frame) each) (broadcasts_web frame ∷ [])
            refl sent)
      | inr no_web ↦ rw no_web sent
    ]

-- The callback for messages and the history send nothing.
pub add_message_to_history-tables :
    (m : ChatMessage) (s : Server)
    → ((add_message_to_history m s).out ≡ s.out)
      × ((add_message_to_history m s).clients ≡ s.clients)
unfolding add_message_to_history
add_message_to_history-tables m s = ground arith

notify-Sends :
    (fd : ℕ) (frame : Bytes) (m : ChatMessage) (s v : Server)
    → Sends fd frame s v
    → Sends fd frame s (notify m v)
notify-Sends fd frame m s v h = elim (Bool-cases v.message_callback) [
  | inl told ↦ rw told (Sends-later fd frame s v (emit (notifies m) v) (notifies m ∷ []) refl h)
  | inr silent ↦ rw silent h
]

notify_first :
    (fd : ℕ) (d : ClientInfo) (frame : Bytes) (m : ChatMessage) (s : Server)
    → lookup fd s.clients ≡ some d
    → Sends fd frame s (broadcast frame (notify m s))
notify_first fd d frame m s e =
    let v = emit (notifies m) s in
    if_all (λ u. Sends fd frame s (broadcast frame u)) s.message_callback v s
      (Sends-earlier fd frame s v (broadcast frame v) (notifies m ∷ []) refl
        (broadcast-Sends fd d frame v e))
      (broadcast-Sends fd d frame s e)

pub Sends-same :
    (fd : ℕ) (frame : Bytes) (s v u : Server)
    → v.out ≡ s.out
    → Sends fd frame v u
    → Sends fd frame s u
Sends-same fd frame s v u e (before, (after, f)) =
    (before, (after, f ∙ ap (λ o. o ++ (before ++ (sends fd frame ∷ after))) e))

-- A message that is said to all is sent to each client.
pub say_to_all-Sends :
    (env : Env) (c d : ClientInfo) (fd : ℕ) (line : Bytes) (s : Server)
    → lookup fd s.clients ≡ some d
    → Sends fd (encode (message_of env c [] MessageType.broadcast line)) s (say_to_all env c line s)
unfolding say_to_all
say_to_all-Sends env c d fd line s e =
    let m = message_of env c [] MessageType.broadcast line in
    let (out, clients) = add_message_to_history-tables m s in
    let v = add_message_to_history m s in
    Sends-same fd (encode m) s v (broadcast (encode m) (notify m v)) out
      (notify_first fd d (encode m) m v (ap (λ x. lookup fd x) clients ∙ e))

-- A message that is said in a room is sent to each socket of the room.
pub say_in_room-Sends :
    (env : Env) (c : ClientInfo) (own fd : ℕ) (line : Bytes) (room : ChatRoom) (s : Server)
    → lookup c.current_room s.rooms ≡ some room
    → Stands fd (room_sockets c.current_room s)
    → Sends fd
        (encode (message_of env c c.current_room MessageType.room_message line))
        s
        (say_in_room env own c line s)
unfolding say_in_room
say_in_room-Sends env c own fd line room s there h =
    let m = message_of env c c.current_room MessageType.room_message line in
    let sockets = room_sockets c.current_room s in
    let sent = send_each sockets (encode m) s in
    let kept = add_message_to_history m sent in
    let new =
      Sends-later fd (encode m) s sent kept []
        ((add_message_to_history-tables m sent).0 ∙ sym (append-nil sent.out))
        (send_each-Sends fd sockets (encode m) s h) in
    rw (there, say_in_room) (notify-Sends fd (encode m) m s kept new)
