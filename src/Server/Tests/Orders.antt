-- ===== src/Server/Tests/Orders.antt =====
-- /mute and the frames of a file at concrete inputs.
use smallchat.Base.{
  ℕ, ◌≡◌, ◌≤◌, ◌<◌, ◌⊎◌, refl, true, false, none, some, List, [], ◌∷◌, ◌++◌, map, Bytes, codes,
  arith, length, lookup, insert, nat_eq, bytes_eq,
}
use smallchat.Codec.Frames.{encode_file_transfer}
use smallchat.Server.Admin.{mute, mute_minutes}
use smallchat.Server.Admin.Silence.{silenced, until, mute-until}
use smallchat.Server.Admin.Rights.{admin_at}
use smallchat.Server.Admin.Rights.Steps.{HasOneUser, run-HasOneUser}
use smallchat.Server.Account.{login, nick, login_new, enter}
use smallchat.Server.Command.{run_word, handle_command}
use smallchat.Server.Command.Words.{word_of, look}
use smallchat.Server.Line.{Input, run, step, handle_line, run_kind, kind_of, accept}
use smallchat.Server.Files.{send_file}
use smallchat.Server.Files.Frames.{concat}
use smallchat.Server.Files.Pieces.{Piece, IsInOrder, sent, data_frame, send_file-IsInOrder}
use smallchat.Server.Messages.{handle_plain, still_muted, say}
use smallchat.Server.Registry.Once.{has_key}
use smallchat.Server.Registry.Once.Sent.{times, broadcast-times}
use smallchat.Server.Registry.Stolen.{nick-get_client_by_name}
use smallchat.Server.Send.{put_client, get_client_by_socket, get_client_by_name, broadcast}
use smallchat.Server.State.{ClientInfo, Server, Env, left, new_server}
use smallchat.Server.Tests.Data.{env, ann, one_client}
use smallchat.Std.Stream.{next_word, rest_of_line}

abbrev admin : ClientInfo
admin = record ann { is_admin = true; is_muted = false }

abbrev bob : ClientInfo
bob = record ann { socket_fd = 5; name = codes "bob"; is_muted = false; current_room = [] }

abbrev two_clients : Server
two_clients = record one_client {
  clients = (4, admin) ∷ (5, bob) ∷ [];
  name_to_socket = (codes "ann", 4) ∷ (codes "bob", 5) ∷ [];
}

abbrev quiet_bob : Bytes
quiet_bob = codes " bob 5"

abbrev behind_mute : Server
behind_mute = mute env 4 admin quiet_bob two_clients

until_run : until env quiet_bob ≡ 1300
unfolding mute_minutes rest_of_line next_word smallchat.Std.Decimal.stoi
until_run = refl

mute-until_example :
    ((1 ≤ mute_minutes (rest_of_line (next_word quiet_bob).1))
      × (mute_minutes (rest_of_line (next_word quiet_bob).1) ≤ 60))
    × ((later : Env) (line : Bytes)
        → (later.now ≤ until env quiet_bob
            → handle_plain later 5 line behind_mute ≡ still_muted 5 behind_mute)
          × (until env quiet_bob < later.now
              → handle_plain later 5 line behind_mute
                ≡ say later 5 line (silenced bob (until env quiet_bob)) (
                    put_client 5
                      (record (silenced bob (until env quiet_bob)) { is_muted = false })
                      behind_mute)))
unfolding next_word lookup
mute-until_example = mute-until env 4 5 admin bob quiet_bob two_clients refl refl refl refl refl

send_file-IsInOrder_example :
    (ps : List Piece) × (((send_file
          (5 ∷ [])
          (codes "ann")
          (codes "bob")
          (codes "a.txt")
          (codes "hello")
          two_clients).out
        ≡ sent (5 ∷ []) (
            encode_file_transfer (codes "ann") (codes "bob") (codes "a.txt") 5
            ∷ map (data_frame (codes "ann") (codes "bob") (codes "a.txt")) ps))
      × ((concat (map (λ p. p.bytes) ps) ≡ codes "hello") × IsInOrder 0 ps))
send_file-IsInOrder_example =
    send_file-IsInOrder (5 ∷ []) (codes "ann") (codes "bob") (codes "a.txt") (codes "hello")
      two_clients

-- A server with the user bob of one_client: who logs in becomes administrator.
abbrev first_login : List Input
first_login = Input.line env 4 (codes "/login eve") ∷ []

eve_run : admin_at 4 (left (run first_login one_client)) ≡ true
unfolding run step handle_line run_kind kind_of get_client_by_socket lookup handle_command run_word
    word_of look next_word login login_new enter admin_at smallchat.Server.Send.get_client_by_name
    rest_of_line smallchat.Server.Send.broadcast smallchat.Server.Send.rename smallchat.Base.insert
eve_run = refl

run-HasOneUser_example : (admin_at 4 one_client ≡ true) ⊎ HasOneUser first_login one_client
run-HasOneUser_example = run-HasOneUser 4 first_login one_client eve_run

-- The client of socket 4 has logged in under the name of the guest on socket 5.
abbrev impostor : ClientInfo
impostor = record ann { name = codes "Guest_5" }

abbrev guest : ClientInfo
guest = record impostor { socket_fd = 5; is_logged_in = false; current_room = [] }

abbrev confused : Server
confused = record one_client {
  clients = (4, impostor) ∷ (5, guest) ∷ [];
  name_to_socket = (codes "Guest_5", 4) ∷ [];
}

nick-get_client_by_name_example :
    (get_client_by_name (codes "Guest_5") confused ≡ some impostor)
    × ((get_client_by_name (codes "Guest_5") (nick 5 guest (codes " zed") confused) ≡ none)
        × (lookup 4 (nick 5 guest (codes " zed") confused).clients ≡ some impostor))
unfolding lookup next_word get_client_by_name
nick-get_client_by_name_example =
    nick-get_client_by_name 5 4 guest impostor (codes " zed") confused refl refl (ground arith) refl
      (ground arith) refl

abbrev two_arrivals : List Input
two_arrivals =
    Input.connection 4 (codes "127.0.0.1") 5000 0
    ∷ Input.connection 5 (codes "127.0.0.1") 5001 0
    ∷ []

broadcast-times_example :
    times 5 (codes "hi") (broadcast (codes "hi") (left (run two_arrivals new_server))).out ≡ 1
unfolding run step accept new_server insert lookup has_key times broadcast
    smallchat.Codec.Frames.encode_welcome
broadcast-times_example = broadcast-times two_arrivals new_server 5 (codes "hi") (codes "hi") refl
