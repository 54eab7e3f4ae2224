-- ===== src/Beast/Queue.antt =====
-- src/web_server_impl.cpp: write_queue_ of a session.
use smallchat.Base.{
  ℕ, zero, suc, ◌≤◌, ◌≡◌, refl, ap, ◌∙◌, sym, Bool, true, false, List, [], ◌∷◌, ◌++◌, append_assoc,
  append-nil, Bytes, arith, length, length-drop, drop, is_empty,
}
use smallchat.Beast.{Session, new_session, do_write, send_message, on_write}

-- A session is given a message, or async_write ends without an error.
pub data Event : Type 0 where
  sends : Bytes → Event
  writes : Event

unfoldable pub after : List Event → Session → Session
after [] s = s
after (sends m ∷ es) s = after es (send_message m s)
after (writes ∷ es) s = after es (on_write true s)

-- The messages that were given.
unfoldable pub messages : List Event → List Bytes
messages [] = []
messages (sends m ∷ es) = m ∷ messages es
messages (writes ∷ es) = messages es

-- What has been written, and what waits behind the message that is being written.
abbrev pub accepted : Session → List Bytes
accepted s = s.written ++ drop 1 s.write_queue

drop_push :
    (q : List Bytes) (m : Bytes)
    → is_empty q ≡ false
    → drop 1 (q ++ (m ∷ [])) ≡ drop 1 q ++ (m ∷ [])
drop_push [] m e = absurd (ground arith)
drop_push (x ∷ q) m e = refl

send_message-accepted :
    (m : Bytes) (name : Bytes) (q w : List Bytes) (r c : Bool)
    → let s : Session = record {
      username = name;
      write_queue = q;
      written = w;
      reading = r;
      closing = c;
    } in
      accepted (send_message m s) ≡ accepted s ++ (m ∷ [])
unfolding send_message do_write
send_message-accepted m name [] w r c =
    ap (λ k. k ++ []) (ap (λ k. k ++ (m ∷ [])) (sym (append-nil w))) ∙ append-nil _
send_message-accepted m name (x ∷ q) w r c = sym (append_assoc w q (m ∷ []))

on_write-accepted :
    (name : Bytes) (q w : List Bytes) (r c : Bool)
    → let s : Session = record {
      username = name;
      write_queue = q;
      written = w;
      reading = r;
      closing = c;
    } in
      accepted (on_write true s) ≡ accepted s
unfolding on_write do_write
on_write-accepted name [] w r c = refl
on_write-accepted name (x ∷ []) w r c = refl
on_write-accepted name (x ∷ y ∷ q) w r c = append_assoc w (y ∷ []) q

-- What a session writes, as long as no write fails, are the messages that it was given, each once and in
-- their order: they are what has been written and what waits.
pub after-accepted :
    (es : List Event) (s : Session) → accepted (after es s) ≡ accepted s ++ messages es
unfolding after messages
after-accepted [] s = sym (append-nil (accepted s))
after-accepted (sends m ∷ es) s =
    after-accepted es (send_message m s)
    ∙ ap (λ k. k ++ messages es)
        (send_message-accepted m s.username s.write_queue s.written s.reading s.closing)
    ∙ append_assoc (accepted s) (m ∷ []) (messages es)
after-accepted (writes ∷ es) s =
    after-accepted es (on_write true s)
    ∙ ap (λ k. k ++ messages es)
        (on_write-accepted s.username s.write_queue s.written s.reading s.closing)

-- `n` writes end.
abbrev pub writings : ℕ → List Event
writings zero = []
writings (suc n) = writes ∷ writings n

messages-writings : (n : ℕ) → messages (writings n) ≡ []
unfolding messages
messages-writings zero = refl
messages-writings (suc n) = messages-writings n

on_write_queue : (s : Session) → (on_write true s).write_queue ≡ drop 1 s.write_queue
unfolding on_write do_write
on_write_queue s = ground arith

no_length : (q : List Bytes) → length q ≤ 0 → q ≡ []
no_length [] b = refl
no_length (x ∷ q) b = absurd (omega (arith, b))

drained : (n : ℕ) (s : Session) → length s.write_queue ≤ n → (after (writings n) s).write_queue ≡ []
unfolding after
drained zero s b = no_length s.write_queue b
drained (suc n) s b =
    drained n (on_write true s)
      (rw (on_write_queue s) (omega (arith, b, length-drop 1 s.write_queue)))

-- Every message that a new session is given is written, in their order, once as many more writes have
-- ended without an error as messages are in the queue.
pub after-drained :
    (es : List Event) (n : ℕ)
    → length (after es new_session).write_queue ≤ n
    → (after (writings n) (after es new_session)).written ≡ messages es
unfolding new_session
after-drained es n b =
    let s = after es new_session in
    let t = after (writings n) s in
    sym (append-nil t.written)
    ∙ ap (λ q. t.written ++ drop 1 q) (sym (drained n s b))
    ∙ after-accepted (writings n) s
    ∙ ap (λ k. accepted s ++ k) (messages-writings n)
    ∙ append-nil (accepted s)
    ∙ after-accepted es new_session

abbrev pub send_all : List Bytes → Session → Session
send_all [] s = s
send_all (m ∷ ms) s = send_all ms (send_message m s)

full : (q : List Bytes) (m : Bytes) → is_empty (q ++ (m ∷ [])) ≡ false
full [] m = refl
full (x ∷ q) m = refl

send_message-full :
    (m : Bytes) (s : Session)
    → is_empty s.write_queue ≡ false
    → ((send_message m s).write_queue ≡ s.write_queue ++ (m ∷ []))
      × ((send_message m s).written ≡ s.written)
unfolding send_message
send_message-full m s e = ground arith

send_all-full :
    (ms : List Bytes) (s : Session)
    → is_empty s.write_queue ≡ false
    → (send_all ms s).written ≡ s.written
send_all-full [] s e = refl
send_all-full (m ∷ ms) s e =
    let (queue, same) = send_message-full m s e in
    send_all-full ms (send_message m s) (rw queue (full s.write_queue m)) ∙ same

-- When a write fails while messages wait, the queue stays filled with nothing being written: whatever
-- the session is given from then on, nothing is written any more.
pub on_write-stuck :
    (s : Session) (first second : Bytes) (rest ms : List Bytes)
    → s.write_queue ≡ first ∷ second ∷ rest
    → (send_all ms (on_write false s)).written ≡ s.written
unfolding on_write
on_write-stuck s first second rest ms e = send_all-full ms (on_write false s) (rw e refl)
