-- ===== src/Server/History/Quiet.antt =====
-- src/server.cpp: the calls that do not touch the histories.
pub mod Commands
use smallchat.Base.{
  ℕ, ◌+◌, length, ◌≡◌, refl, ◌∙◌, List, [], ◌∷◌, Bytes, arith, inl, inr, Option-cases, bytes_eq,
}
use smallchat.Codec.Message.{ChatMessage}
use smallchat.Server.History.{add_message_to_history}
use smallchat.Server.Rooms.{remove_member, list_rooms, list_members}
use smallchat.Server.Send.{broadcast, notify}
use smallchat.Server.State.{ClientInfo, Server, Env, left}
use smallchat.Server.Talk.{
  list_users, whisper, help, info, send_history, show_history, show_room_history, unknown_command,
}
use smallchat.Server.Files.{send_chunks, send_file, transfer, file_to_room}
use smallchat.Server.Relay.{
  Fields, skipped, malformed, receiver, relay, forward, forward_or_all, tell_sender, receipt_global,
  receipt_rooms, handle_read_receipt, handle_file_transfer, handle_file_request,
  handle_file_response, handle_file_data, mark,
}

pub record Quiet (s t : Server) : Type 0 where
  pub history : t.message_history ≡ s.message_history
  pub rooms : t.room_message_history ≡ s.room_message_history

pub Quiet-trans : {s t u : Server} → Quiet s t → Quiet t u → Quiet s u
Quiet-trans a b = record { history = b.history ∙ a.history; rooms = b.rooms ∙ a.rooms }

pub broadcast-Quiet : (m : Bytes) (s : Server) → Quiet s (broadcast m s)
unfolding broadcast
broadcast-Quiet m s = ground arith

pub notify-Quiet : (m : ChatMessage) (s : Server) → Quiet s (notify m s)
notify-Quiet m s = ground arith

pub remove_member-Quiet : (r n : Bytes) (s : Server) → Quiet s (remove_member r n s)
unfolding remove_member
remove_member-Quiet r n s = ground arith

pub list_users-Quiet : (fd : ℕ) (s : Server) → Quiet s (list_users fd s)
unfolding list_users
list_users-Quiet fd s = record { history = refl; rooms = refl }

pub help-Quiet : (fd : ℕ) (s : Server) → Quiet s (help fd s)
unfolding help
help-Quiet fd s = record { history = refl; rooms = refl }

pub info-Quiet : (fd : ℕ) (s : Server) → Quiet s (info fd s)
unfolding info
info-Quiet fd s = record { history = refl; rooms = refl }

pub list_rooms-Quiet : (fd : ℕ) (s : Server) → Quiet s (list_rooms fd s)
unfolding list_rooms
list_rooms-Quiet fd s = record { history = refl; rooms = refl }

pub list_members-Quiet : (fd : ℕ) (c : ClientInfo) (s : Server) → Quiet s (list_members fd c s)
unfolding list_members
list_members-Quiet fd c s = ground arith

send_history-Quiet :
    (env : Env) (fd : ℕ) (ms : List ChatMessage) (s : Server) → Quiet s (send_history env fd ms s)
unfolding send_history
send_history-Quiet env fd [] s = record { history = refl; rooms = refl }
send_history-Quiet env fd (m ∷ ms) s =
    let rest = send_history-Quiet env fd ms _ in
    record { history = rest.history; rooms = rest.rooms }

pub show_history-Quiet :
    (env : Env) (fd : ℕ) (args : Bytes) (s : Server) → Quiet s (show_history env fd args s)
unfolding show_history
show_history-Quiet env fd args s = grind (arith, send_history-Quiet)

pub show_room_history-Quiet :
    (env : Env) (fd : ℕ) (c : ClientInfo) (args : Bytes) (s : Server)
    → Quiet s (show_room_history env fd c args s)
unfolding show_room_history
show_room_history-Quiet env fd c args s = grind (arith, send_history-Quiet)

send_chunks-Quiet :
    (fds : List ℕ) (from to name : Bytes) (size : ℕ) (reads : List Bytes) (offset : ℕ) (s : Server)
    → Quiet s (send_chunks fds from to name size reads offset s)
unfolding send_chunks
send_chunks-Quiet fds from to name size [] offset s = record { history = refl; rooms = refl }
send_chunks-Quiet fds from to name size (r ∷ reads) offset s =
    let rest = send_chunks-Quiet fds from to name size reads (offset + length r) _ in
    record { history = rest.history; rooms = rest.rooms }

send_file-Quiet :
    (fds : List ℕ) (from to name file : Bytes) (s : Server)
    → Quiet s (send_file fds from to name file s)
unfolding send_file
send_file-Quiet fds from to name file s = grind (arith, send_chunks-Quiet)

pub transfer-Quiet :
    (env : Env) (fd : ℕ) (c : ClientInfo) (args : Bytes) (s : Server)
    → Quiet s (transfer env fd c args s)
unfolding transfer
transfer-Quiet env fd c args s = grind (arith, send_file-Quiet)

pub file_to_room-Quiet :
    (env : Env) (fd : ℕ) (c : ClientInfo) (args : Bytes) (s : Server)
    → Quiet s (file_to_room env fd c args s)
unfolding file_to_room
file_to_room-Quiet env fd c args s = grind (arith, send_file-Quiet)

forward-Quiet : (fd : ℕ) (l to : Bytes) (s : Server) → Quiet s (forward fd l to s)
unfolding forward
forward-Quiet fd l to s = ground arith

forward_or_all-Quiet : (fd : ℕ) (l to : Bytes) (s : Server) → Quiet s (forward_or_all fd l to s)
unfolding forward_or_all
forward_or_all-Quiet fd l to s = ground arith

relay-Quiet :
    (deliver : Bytes → Server → Server) (f : Fields) (s : Server)
    → ((to : Bytes) (t : Server) → Quiet t (deliver to t))
    → Quiet s (left (relay deliver f s))
unfolding relay
relay-Quiet deliver skipped s h = record { history = refl; rooms = refl }
relay-Quiet deliver malformed s h = record { history = refl; rooms = refl }
relay-Quiet deliver (receiver to) s h = h to s

pub handle_file_transfer-Quiet :
    (fd : ℕ) (l : Bytes) (s : Server) → Quiet s (left (handle_file_transfer fd l s))
unfolding handle_file_transfer
handle_file_transfer-Quiet fd l s = relay-Quiet _ _ s (forward_or_all-Quiet fd l)

pub handle_file_request-Quiet :
    (fd : ℕ) (l : Bytes) (s : Server) → Quiet s (left (handle_file_request fd l s))
unfolding handle_file_request
handle_file_request-Quiet fd l s = relay-Quiet _ _ s (forward-Quiet fd l)

pub handle_file_response-Quiet :
    (fd : ℕ) (l : Bytes) (s : Server) → Quiet s (left (handle_file_response fd l s))
unfolding handle_file_response
handle_file_response-Quiet fd l s = relay-Quiet _ _ s (forward-Quiet fd l)

pub handle_file_data-Quiet :
    (fd : ℕ) (l : Bytes) (s : Server) → Quiet s (left (handle_file_data fd l s))
unfolding handle_file_data
handle_file_data-Quiet fd l s = relay-Quiet _ _ s (forward_or_all-Quiet fd l)

pub tell_sender-Quiet : (sender t : Bytes) (s : Server) → Quiet s (tell_sender sender t s)
unfolding tell_sender
tell_sender-Quiet sender t s = ground arith
