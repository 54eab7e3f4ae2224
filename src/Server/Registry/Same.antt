-- ===== src/Server/Registry/Same.antt =====
-- src/server.cpp: the calls that do not touch clients_, name_to_socket_ and client_threads_.
use smallchat.Base.{
  ℕ, ◌+◌, length, ◌≡◌, refl, ◌∙◌, List, [], ◌∷◌, Bytes, arith, inl, inr, Option-cases, bytes_eq,
}
use smallchat.Codec.Message.{ChatMessage}
use smallchat.Server.History.{add_message_to_history}
use smallchat.Server.Rooms.{remove_member, list_rooms, list_members}
use smallchat.Server.Send.{broadcast, notify}
use smallchat.Server.State.{ClientInfo, Server, Env, left}
use smallchat.Server.Talk.{
  list_users, whisper, help, info, send_history, show_history, show_room_history, unknown_command,
}
use smallchat.Server.Files.{send_chunks, send_file, transfer, file_to_room}
use smallchat.Server.Relay.{
  Fields, skipped, malformed, receiver, relay, forward, forward_or_all, tell_sender, receipt_global,
  receipt_rooms, handle_read_receipt, handle_file_transfer, handle_file_request,
  handle_file_response, handle_file_data, mark,
}

pub record Same (s t : Server) : Type 0 where
  pub clients : t.clients ≡ s.clients
  pub names : t.name_to_socket ≡ s.name_to_socket
  pub threads : t.client_threads ≡ s.client_threads

pub Same-trans : {s t u : Server} → Same s t → Same t u → Same s u
Same-trans a b = record {
  clients = b.clients ∙ a.clients;
  names = b.names ∙ a.names;
  threads = b.threads ∙ a.threads;
}

pub broadcast-Same : (m : Bytes) (s : Server) → Same s (broadcast m s)
unfolding broadcast
broadcast-Same m s = ground arith

pub notify-Same : (m : ChatMessage) (s : Server) → Same s (notify m s)
notify-Same m s = ground arith

pub add_message_to_history-Same :
    (m : ChatMessage) (s : Server) → Same s (add_message_to_history m s)
unfolding add_message_to_history
add_message_to_history-Same m s = ground arith

pub remove_member-Same : (r n : Bytes) (s : Server) → Same s (remove_member r n s)
unfolding remove_member
remove_member-Same r n s = ground arith

pub whisper-Same :
    (env : Env) (fd : ℕ) (c : ClientInfo) (args : Bytes) (s : Server)
    → Same s (whisper env fd c args s)
unfolding whisper
whisper-Same env fd c args s = grind (arith, add_message_to_history-Same)

pub unknown_command-Same :
    (env : Env) (fd : ℕ) (c : ClientInfo) (cmd command : Bytes) (s : Server)
    → Same s (unknown_command env fd c cmd command s)
unfolding unknown_command
unknown_command-Same env fd c cmd command s = grind (arith, add_message_to_history-Same)

pub list_users-Same : (fd : ℕ) (s : Server) → Same s (list_users fd s)
unfolding list_users
list_users-Same fd s = record { clients = refl; names = refl; threads = refl }

pub help-Same : (fd : ℕ) (s : Server) → Same s (help fd s)
unfolding help
help-Same fd s = record { clients = refl; names = refl; threads = refl }

pub info-Same : (fd : ℕ) (s : Server) → Same s (info fd s)
unfolding info
info-Same fd s = record { clients = refl; names = refl; threads = refl }

pub list_rooms-Same : (fd : ℕ) (s : Server) → Same s (list_rooms fd s)
unfolding list_rooms
list_rooms-Same fd s = record { clients = refl; names = refl; threads = refl }

pub list_members-Same : (fd : ℕ) (c : ClientInfo) (s : Server) → Same s (list_members fd c s)
unfolding list_members
list_members-Same fd c s = ground arith

send_history-Same :
    (env : Env) (fd : ℕ) (ms : List ChatMessage) (s : Server) → Same s (send_history env fd ms s)
unfolding send_history
send_history-Same env fd [] s = record { clients = refl; names = refl; threads = refl }
send_history-Same env fd (m ∷ ms) s =
    let rest = send_history-Same env fd ms _ in
    record { clients = rest.clients; names = rest.names; threads = rest.threads }

pub show_history-Same :
    (env : Env) (fd : ℕ) (args : Bytes) (s : Server) → Same s (show_history env fd args s)
unfolding show_history
show_history-Same env fd args s = grind (arith, send_history-Same)

pub show_room_history-Same :
    (env : Env) (fd : ℕ) (c : ClientInfo) (args : Bytes) (s : Server)
    → Same s (show_room_history env fd c args s)
unfolding show_room_history
show_room_history-Same env fd c args s = grind (arith, send_history-Same)

send_chunks-Same :
    (fds : List ℕ) (from to name : Bytes) (size : ℕ) (reads : List Bytes) (offset : ℕ) (s : Server)
    → Same s (send_chunks fds from to name size reads offset s)
unfolding send_chunks
send_chunks-Same fds from to name size [] offset s = record {
  clients = refl;
  names = refl;
  threads = refl;
}
send_chunks-Same fds from to name size (r ∷ reads) offset s =
    let rest = send_chunks-Same fds from to name size reads (offset + length r) _ in
    record { clients = rest.clients; names = rest.names; threads = rest.threads }

send_file-Same :
    (fds : List ℕ) (from to name file : Bytes) (s : Server)
    → Same s (send_file fds from to name file s)
unfolding send_file
send_file-Same fds from to name file s = grind (arith, send_chunks-Same)

pub transfer-Same :
    (env : Env) (fd : ℕ) (c : ClientInfo) (args : Bytes) (s : Server)
    → Same s (transfer env fd c args s)
unfolding transfer
transfer-Same env fd c args s = grind (arith, send_file-Same)

pub file_to_room-Same :
    (env : Env) (fd : ℕ) (c : ClientInfo) (args : Bytes) (s : Server)
    → Same s (file_to_room env fd c args s)
unfolding file_to_room
file_to_room-Same env fd c args s = grind (arith, send_file-Same)

forward-Same : (fd : ℕ) (l to : Bytes) (s : Server) → Same s (forward fd l to s)
unfolding forward
forward-Same fd l to s = ground arith

forward_or_all-Same : (fd : ℕ) (l to : Bytes) (s : Server) → Same s (forward_or_all fd l to s)
unfolding forward_or_all
forward_or_all-Same fd l to s = ground arith

relay-Same :
    (deliver : Bytes → Server → Server) (f : Fields) (s : Server)
    → ((to : Bytes) (t : Server) → Same t (deliver to t))
    → Same s (left (relay deliver f s))
unfolding relay
relay-Same deliver skipped s h = record { clients = refl; names = refl; threads = refl }
relay-Same deliver malformed s h = record { clients = refl; names = refl; threads = refl }
relay-Same deliver (receiver to) s h = h to s

pub handle_file_transfer-Same :
    (fd : ℕ) (l : Bytes) (s : Server) → Same s (left (handle_file_transfer fd l s))
unfolding handle_file_transfer
handle_file_transfer-Same fd l s = relay-Same _ _ s (forward_or_all-Same fd l)

pub handle_file_request-Same :
    (fd : ℕ) (l : Bytes) (s : Server) → Same s (left (handle_file_request fd l s))
unfolding handle_file_request
handle_file_request-Same fd l s = relay-Same _ _ s (forward-Same fd l)

pub handle_file_response-Same :
    (fd : ℕ) (l : Bytes) (s : Server) → Same s (left (handle_file_response fd l s))
unfolding handle_file_response
handle_file_response-Same fd l s = relay-Same _ _ s (forward-Same fd l)

pub handle_file_data-Same :
    (fd : ℕ) (l : Bytes) (s : Server) → Same s (left (handle_file_data fd l s))
unfolding handle_file_data
handle_file_data-Same fd l s = relay-Same _ _ s (forward_or_all-Same fd l)

tell_sender-Same : (sender t : Bytes) (s : Server) → Same s (tell_sender sender t s)
unfolding tell_sender
tell_sender-Same sender t s = ground arith

receipt_global-Same : (i u : Bytes) (s : Server) → Same s (receipt_global i u s)
unfolding receipt_global
receipt_global-Same i u s = ground arith

receipt_rooms-Same :
    (i u : Bytes) (rooms : List (Bytes × List ChatMessage)) (s : Server)
    → Same s (receipt_rooms i u rooms s).1
unfolding receipt_rooms
receipt_rooms-Same i u [] s = record { clients = refl; names = refl; threads = refl }
receipt_rooms-Same i u ((r, ms) ∷ rooms) s = elim (Option-cases (mark i u ms)) [
  | inl e ↦ rw e (receipt_rooms-Same i u rooms s)
  | inr (x, e) ↦ rw e (Same-trans (tell_sender-Same _ _ s) (receipt_rooms-Same i u rooms _))
]

pub handle_read_receipt-Same : (l : Bytes) (s : Server) → Same s (handle_read_receipt l s)
unfolding handle_read_receipt
handle_read_receipt-Same l s = grind (arith, receipt_global-Same, receipt_rooms-Same)
