-- ===== src/Server/Rooms/Kept.antt =====
-- src/server.cpp: the calls that do not touch rooms_.
pub mod Commands
use smallchat.Base.{
  ℕ, ◌+◌, length, ◌≡◌, refl, ◌∙◌, List, [], ◌∷◌, Bytes, arith, inl, inr, Option-cases, bytes_eq,
}
use smallchat.Codec.Message.{ChatMessage}
use smallchat.Server.History.{add_message_to_history}
use smallchat.Server.Rooms.{remove_member, list_rooms, list_members}
use smallchat.Server.Send.{broadcast, notify}
use smallchat.Server.State.{ClientInfo, Server, Env, left}
use smallchat.Server.Talk.{
  list_users, whisper, help, info, send_history, show_history, show_room_history, unknown_command,
}
use smallchat.Server.Files.{send_chunks, send_file, transfer, file_to_room}
use smallchat.Server.Relay.{
  Fields, skipped, malformed, receiver, relay, forward, forward_or_all, tell_sender, receipt_global,
  receipt_rooms, handle_read_receipt, handle_file_transfer, handle_file_request,
  handle_file_response, handle_file_data, mark,
}

abbrev pub Kept : Server → Server → Type 0
Kept s t = t.rooms ≡ s.rooms

pub add_message_to_history-Kept :
    (m : ChatMessage) (s : Server) → Kept s (add_message_to_history m s)
unfolding add_message_to_history
add_message_to_history-Kept m s = ground arith

pub whisper-Kept :
    (env : Env) (fd : ℕ) (c : ClientInfo) (args : Bytes) (s : Server)
    → Kept s (whisper env fd c args s)
unfolding whisper
whisper-Kept env fd c args s = grind (arith, add_message_to_history-Kept)

pub unknown_command-Kept :
    (env : Env) (fd : ℕ) (c : ClientInfo) (cmd command : Bytes) (s : Server)
    → Kept s (unknown_command env fd c cmd command s)
unfolding unknown_command
unknown_command-Kept env fd c cmd command s = grind (arith, add_message_to_history-Kept)

pub broadcast-Kept : (m : Bytes) (s : Server) → Kept s (broadcast m s)
unfolding broadcast
broadcast-Kept m s = ground arith

pub notify-Kept : (m : ChatMessage) (s : Server) → Kept s (notify m s)
notify-Kept m s = ground arith

pub list_users-Kept : (fd : ℕ) (s : Server) → Kept s (list_users fd s)
unfolding list_users
list_users-Kept fd s = refl

pub help-Kept : (fd : ℕ) (s : Server) → Kept s (help fd s)
unfolding help
help-Kept fd s = refl

pub info-Kept : (fd : ℕ) (s : Server) → Kept s (info fd s)
unfolding info
info-Kept fd s = refl

pub list_rooms-Kept : (fd : ℕ) (s : Server) → Kept s (list_rooms fd s)
unfolding list_rooms
list_rooms-Kept fd s = refl

pub list_members-Kept : (fd : ℕ) (c : ClientInfo) (s : Server) → Kept s (list_members fd c s)
unfolding list_members
list_members-Kept fd c s = ground arith

send_history-Kept :
    (env : Env) (fd : ℕ) (ms : List ChatMessage) (s : Server) → Kept s (send_history env fd ms s)
unfolding send_history
send_history-Kept env fd [] s = refl
send_history-Kept env fd (m ∷ ms) s = let rest = send_history-Kept env fd ms _ in rest

pub show_history-Kept :
    (env : Env) (fd : ℕ) (args : Bytes) (s : Server) → Kept s (show_history env fd args s)
unfolding show_history
show_history-Kept env fd args s = grind (arith, send_history-Kept)

pub show_room_history-Kept :
    (env : Env) (fd : ℕ) (c : ClientInfo) (args : Bytes) (s : Server)
    → Kept s (show_room_history env fd c args s)
unfolding show_room_history
show_room_history-Kept env fd c args s = grind (arith, send_history-Kept)

send_chunks-Kept :
    (fds : List ℕ) (from to name : Bytes) (size : ℕ) (reads : List Bytes) (offset : ℕ) (s : Server)
    → Kept s (send_chunks fds from to name size reads offset s)
unfolding send_chunks
send_chunks-Kept fds from to name size [] offset s = refl
send_chunks-Kept fds from to name size (r ∷ reads) offset s =
    let rest = send_chunks-Kept fds from to name size reads (offset + length r) _ in rest

send_file-Kept :
    (fds : List ℕ) (from to name file : Bytes) (s : Server)
    → Kept s (send_file fds from to name file s)
unfolding send_file
send_file-Kept fds from to name file s = grind (arith, send_chunks-Kept)

pub transfer-Kept :
    (env : Env) (fd : ℕ) (c : ClientInfo) (args : Bytes) (s : Server)
    → Kept s (transfer env fd c args s)
unfolding transfer
transfer-Kept env fd c args s = grind (arith, send_file-Kept)

pub file_to_room-Kept :
    (env : Env) (fd : ℕ) (c : ClientInfo) (args : Bytes) (s : Server)
    → Kept s (file_to_room env fd c args s)
unfolding file_to_room
file_to_room-Kept env fd c args s = grind (arith, send_file-Kept)

forward-Kept : (fd : ℕ) (l to : Bytes) (s : Server) → Kept s (forward fd l to s)
unfolding forward
forward-Kept fd l to s = ground arith

forward_or_all-Kept : (fd : ℕ) (l to : Bytes) (s : Server) → Kept s (forward_or_all fd l to s)
unfolding forward_or_all
forward_or_all-Kept fd l to s = ground arith

relay-Kept :
    (deliver : Bytes → Server → Server) (f : Fields) (s : Server)
    → ((to : Bytes) (t : Server) → Kept t (deliver to t))
    → Kept s (left (relay deliver f s))
unfolding relay
relay-Kept deliver skipped s h = refl
relay-Kept deliver malformed s h = refl
relay-Kept deliver (receiver to) s h = h to s

pub handle_file_transfer-Kept :
    (fd : ℕ) (l : Bytes) (s : Server) → Kept s (left (handle_file_transfer fd l s))
unfolding handle_file_transfer
handle_file_transfer-Kept fd l s = relay-Kept _ _ s (forward_or_all-Kept fd l)

pub handle_file_request-Kept :
    (fd : ℕ) (l : Bytes) (s : Server) → Kept s (left (handle_file_request fd l s))
unfolding handle_file_request
handle_file_request-Kept fd l s = relay-Kept _ _ s (forward-Kept fd l)

pub handle_file_response-Kept :
    (fd : ℕ) (l : Bytes) (s : Server) → Kept s (left (handle_file_response fd l s))
unfolding handle_file_response
handle_file_response-Kept fd l s = relay-Kept _ _ s (forward-Kept fd l)

pub handle_file_data-Kept :
    (fd : ℕ) (l : Bytes) (s : Server) → Kept s (left (handle_file_data fd l s))
unfolding handle_file_data
handle_file_data-Kept fd l s = relay-Kept _ _ s (forward_or_all-Kept fd l)

pub tell_sender-Kept : (sender t : Bytes) (s : Server) → Kept s (tell_sender sender t s)
unfolding tell_sender
tell_sender-Kept sender t s = ground arith

receipt_global-Kept : (i u : Bytes) (s : Server) → Kept s (receipt_global i u s)
unfolding receipt_global
receipt_global-Kept i u s = ground arith

receipt_rooms-Kept :
    (i u : Bytes) (rooms : List (Bytes × List ChatMessage)) (s : Server)
    → Kept s (receipt_rooms i u rooms s).1
unfolding receipt_rooms
receipt_rooms-Kept i u [] s = refl
receipt_rooms-Kept i u ((r, ms) ∷ rooms) s = elim (Option-cases (mark i u ms)) [
  | inl e ↦ rw e (receipt_rooms-Kept i u rooms s)
  | inr (x, e) ↦ rw e (receipt_rooms-Kept i u rooms _ ∙ tell_sender-Kept _ _ s)
]

pub handle_read_receipt-Kept : (l : Bytes) (s : Server) → Kept s (handle_read_receipt l s)
unfolding handle_read_receipt
handle_read_receipt-Kept l s = grind (arith, receipt_global-Kept, receipt_rooms-Kept)
