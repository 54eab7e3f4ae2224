-- ===== src/Server/Tests/Reached.antt =====
-- A state that a server comes to: ann has logged in and made a room.
use smallchat.Base.{
  arith, none, List, ℕ, ◌≡◌, refl, ◌⊎◌, true, false, some, [], ◌∷◌, ◌++◌, Bytes, All, codes, lookup,
  insert, erase, nat_eq, bytes_eq,
}
use smallchat.Server.Line.{Input, step, accept, handle_line, run_kind, kind_of}
use smallchat.Server.Registry.Members.{IsMember, is_among, room_sockets-IsMember}
use smallchat.Server.Account.{nick}
use smallchat.Server.Registry.Renamed.{nick-room_sockets}
use smallchat.Server.Registry.Reach.{reachable-IsConsistent, Reaches, starts, goes}
use smallchat.Server.Registry.Tables.{view}
use smallchat.Server.Registry.Whisper.{frame_of, whisper-target}
use smallchat.Server.Rooms.{contains, create_room}
use smallchat.Server.Send.{
  room_sockets, get_client_by_socket, get_client_by_name, broadcast, rename,
}
use smallchat.Server.Command.{handle_command, run_word}
use smallchat.Server.Command.Words.{word_of}
use smallchat.Server.Account.{login, enter}
use smallchat.Server.State.{ClientInfo, Server, ChatRoom, new_server, sends, left}
use smallchat.Server.Talk.{whisper}
use smallchat.Server.Line.{run}
use smallchat.Server.Rooms.Full.{IsFull, LeavesFull}
use smallchat.Server.Rooms.Reach.{run-IsFull}
use smallchat.Server.Tests.Data.{env, ann}
use smallchat.Std.Stream.{next_word, rest_of_line}

abbrev arrived : Server
arrived = accept 4 (codes "127.0.0.1") 5000 0 new_server

abbrev entered : Server
entered = left (step (Input.line env 4 (codes "/login ann")) arrived)

abbrev settled : Server
settled = left (step (Input.line env 4 (codes "/cr hall")) entered)

abbrev room : ChatRoom
room = record {
  name = codes "hall";
  creator = codes "ann";
  members = codes "ann" ∷ [];
  create_time = 1000;
  is_private = false;
  password = [];
}

arrived-Reaches : Reaches arrived
unfolding new_server lookup step
arrived-Reaches =
    goes (Input.connection 4 (codes "127.0.0.1") 5000 0) (starts new_server refl refl) refl refl

entered-Reaches : Reaches entered
unfolding step new_server lookup handle_line run_kind kind_of get_client_by_socket accept insert
    handle_command run_word word_of next_word login get_client_by_name rest_of_line
entered-Reaches = goes (Input.line env 4 (codes "/login ann")) arrived-Reaches tt refl

settled-Reaches : Reaches settled
unfolding step new_server lookup handle_line run_kind kind_of get_client_by_socket accept insert
    handle_command run_word word_of next_word login get_client_by_name rest_of_line broadcast enter
    rename create_room
settled-Reaches = goes (Input.line env 4 (codes "/cr hall")) entered-Reaches tt refl

room_run : lookup (codes "hall") settled.rooms ≡ some room
unfolding step new_server lookup handle_line run_kind kind_of get_client_by_socket accept insert
    handle_command run_word word_of next_word login get_client_by_name rest_of_line broadcast enter
    rename create_room
room_run = refl

name_run : lookup (codes "ann") settled.name_to_socket ≡ some 4
unfolding step new_server lookup handle_line run_kind kind_of get_client_by_socket accept insert
    handle_command run_word word_of next_word login get_client_by_name rest_of_line broadcast enter
    rename create_room erase
name_run = refl

room_sockets-IsMember_example :
    All (IsMember settled (codes "ann" ∷ [])) (room_sockets (codes "hall") settled)
room_sockets-IsMember_example =
    room_sockets-IsMember settled (codes "hall") room settled-Reaches room_run

abbrev member : ClientInfo
member = record {
  socket_fd = 4;
  name = codes "ann";
  password = [];
  ip_address = codes "127.0.0.1";
  port = 5000;
  connect_time = 0;
  is_logged_in = true;
  is_admin = false;
  is_muted = false;
  mute_end_time = 0;
  current_room = codes "hall";
}

member_run : lookup 4 settled.clients ≡ some member
unfolding step new_server lookup handle_line run_kind kind_of get_client_by_socket accept insert
    handle_command run_word word_of next_word login get_client_by_name rest_of_line broadcast enter
    rename create_room erase
member_run = refl

free_run : get_client_by_name (codes "bob") settled ≡ none
unfolding step new_server lookup handle_line run_kind kind_of get_client_by_socket accept insert
    handle_command run_word word_of next_word login get_client_by_name rest_of_line broadcast enter
    rename create_room erase
free_run = refl

nick-room_sockets_example :
    (lookup (codes "hall") (nick 4 member (codes " bob") settled).rooms ≡ some room)
    × (is_among (room_sockets (codes "hall") (nick 4 member (codes " bob") settled)) 4 ≡ false)
unfolding next_word contains
nick-room_sockets_example =
    nick-room_sockets 4 member (codes " bob") settled (codes "hall") room
      (reachable-IsConsistent settled settled-Reaches) member_run refl free_run room_run refl

abbrev to_ann : Bytes
to_ann = codes " ann hi"

whisper-target_example :
    ((answer : Bytes) × ((whisper env 4 ann to_ann settled).out
        ≡ settled.out ++ (sends 4 answer ∷ [])))
    ⊎ ((k : ℕ) × ((view settled k ≡ some ((next_word to_ann).0, k))
          × ((whisper env 4 ann to_ann settled).out
              ≡ settled.out
                ++ (sends k (frame_of env ann to_ann) ∷ sends 4 (frame_of env ann to_ann) ∷ []))))
whisper-target_example = whisper-target env 4 ann to_ann settled settled-Reaches

new-IsFull : IsFull new_server
unfolding new_server lookup
new-IsFull = record { whole = λ n r h. absurd (ground arith) }

abbrev inputs : List Input
inputs =
    Input.connection 4 (codes "127.0.0.1") 5000 0
    ∷ Input.line env 4 (codes "/cr hall")
    ∷ Input.line env 4 (codes "/lr")
    ∷ []

run-IsFull_example : LeavesFull (run inputs new_server)
run-IsFull_example = run-IsFull inputs new_server new-IsFull
