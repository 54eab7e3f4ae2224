-- ===== src/Chat/Tests.antt =====
-- Two users at concrete inputs: ann on socket 4 speaks, and bob's client on socket 5 listens.
pub mod Muted
use smallchat.Base.{
  ◌≡◌, refl, sym, true, false, some, [], ◌∷◌, Bytes, codes, arith, lookup, nat_eq, bytes_eq, Lacks,
}
use smallchat.Chat.{Sends, screen_behind}
use smallchat.Chat.Said.{IsSpeaker, said_line, handle_line-screen, handle_line-room_screen}
use smallchat.Chat.Screen.{IsHearing}
use smallchat.Chat.Whispered.{whisper_line, whisper-screen}
use smallchat.Client.Connection.{Connection}
use smallchat.Codec.Base64.{base64_encode}
use smallchat.Codec.Message.{encode, MessageType, newline, bar, type_code}
use smallchat.Codec.Message.Line.{IsOneLine}
use smallchat.Server.Line.{handle_line, kind_of}
use smallchat.Server.Registry.Whisper.{frame_of}
use smallchat.Server.Send.{room_sockets, get_client_by_name}
use smallchat.Server.State.{ClientInfo, ChatRoom, Server, returns}
use smallchat.Server.Talk.{message_of, whisper}
use smallchat.Server.Tests.Data.{env, ann, hall, one_client}
use smallchat.Std.Decimal
use smallchat.Std.Decimal.{FitsInt}
use smallchat.Std.Stream.{next_word, rest_of_line}
use smallchat.Terminal.{Terminal}

abbrev ann_aloud : ClientInfo
ann_aloud = record ann { is_muted = false; current_room = [] }

abbrev pub bob : ClientInfo
bob = record ann { socket_fd = 5; name = codes "bob"; is_muted = false; current_room = [] }

abbrev two_clients : Server
two_clients = record one_client {
  clients = (4, ann_aloud) ∷ (5, bob) ∷ [];
  name_to_socket = (codes "ann", 4) ∷ (codes "bob", 5) ∷ [];
}

abbrev pub listening : Connection
listening = record {
  client = record {
    connected = true;
    running = true;
    message_callback = true;
    system_callback = true;
    userlist_callback = true;
    error_callback = true;
    success_callback = true;
  };
  socket_fd = some 3;
  host = codes "127.0.0.1";
  port = 8888;
  receiving = true;
  closed = [];
}

pub listening-IsHearing : IsHearing listening
listening-IsHearing = record { on = refl; up = refl; set = refl }

abbrev pub terminal : Terminal
terminal = record {
  client = listening.client;
  logged_in = true;
  quit = false;
  current_user = codes "bob";
  sent = [];
  shown = [];
}

ann-IsSpeaker : IsSpeaker two_clients 4 ann_aloud
unfolding lookup
ann-IsSpeaker = record { there = refl; logged_in = refl; free = refl }

hi-IsOneLine :
    (receiver : Bytes) (type : MessageType)
    → Lacks bar receiver
    → Lacks newline receiver
    → FitsInt (type_code type)
    → IsOneLine (message_of env ann receiver type (codes "hi"))
unfolding smallchat.Utils.replace_emojis
hi-IsOneLine receiver type plain line fits = record {
  sendable = record {
    sender_plain = ground arith;
    receiver_plain = plain;
    type_fits = fits;
    content_bytes = ground arith;
  };
  sender_line = ground arith;
  receiver_line = line;
  id_line = ground arith;
}

abbrev said : Bytes
said = codes "MSG|ann||0|aGk=|1_2\n"

said_run : encode (message_of env ann_aloud [] MessageType.broadcast (codes "hi")) ≡ said
unfolding encode base64_encode smallchat.Utils.replace_emojis Decimal.print_int
    smallchat.Codec.Base64.encode_end
said_run = refl

handle_line-screen_example :
    (v : Server) × ((handle_line env 4 (codes "hi") two_clients ≡ returns v)
      × (Sends 5
            (encode (message_of env ann_aloud [] MessageType.broadcast (codes "hi")))
            two_clients
            v
          × (screen_behind 7 (said ∷ []) listening terminal
              ≡ some (said_line env ann_aloud (codes "hi") terminal ∷ []))))
unfolding lookup kind_of
handle_line-screen_example =
    handle_line-screen env 4 5 (codes "hi") ann_aloud bob two_clients refl refl ann-IsSpeaker refl
      (hi-IsOneLine [] MessageType.broadcast (ground arith) (ground arith) (ground arith)) refl 7
      (said ∷ []) listening terminal listening-IsHearing (ground arith) (sym said_run)

-- Both in the room "hall".
abbrev both_members : ChatRoom
both_members = record hall { members = codes "ann" ∷ codes "bob" ∷ [] }

abbrev pub ann_inside : ClientInfo
ann_inside = record ann { is_muted = false }

abbrev pub in_room : Server
in_room = record two_clients {
  clients = (4, ann_inside) ∷ (5, record bob { current_room = codes "hall" }) ∷ [];
  rooms = (codes "hall", both_members) ∷ [];
}

inside-IsSpeaker : IsSpeaker in_room 4 ann_inside
unfolding lookup
inside-IsSpeaker = record { there = refl; logged_in = refl; free = refl }

abbrev inside : Bytes
inside = codes "MSG|ann|hall|18|aGk=|1_2\n"

inside_run :
    encode (message_of env ann_inside (codes "hall") MessageType.room_message (codes "hi")) ≡ inside
unfolding encode base64_encode smallchat.Utils.replace_emojis Decimal.print_int Decimal.print
    smallchat.Codec.Base64.encode_end
inside_run = refl

handle_line-room_screen_example :
    (v : Server) × ((handle_line env 4 (codes "hi") in_room ≡ returns v)
      × (Sends 5
            (encode
              (message_of env ann_inside (codes "hall") MessageType.room_message (codes "hi")))
            in_room
            v
          × (screen_behind 7 (inside ∷ []) listening terminal
              ≡ some (said_line env ann_inside (codes "hi") terminal ∷ []))))
unfolding lookup kind_of room_sockets
handle_line-room_screen_example =
    handle_line-room_screen env 4 5 (codes "hi") ann_inside bob in_room both_members refl refl
      inside-IsSpeaker refl refl
      (hi-IsOneLine (codes "hall") MessageType.room_message (ground arith) (ground arith)
        (ground arith))
      (4 ∷ [], ([], refl)) 7 (inside ∷ []) listening terminal listening-IsHearing (ground arith)
      (sym inside_run)

abbrev whispered : Bytes
whispered = codes "MSG|ann|bob|1|aGk=|1_2\n"

abbrev to_bob : Bytes
to_bob = codes " bob hi"

whispered_run : frame_of env ann_aloud to_bob ≡ whispered
unfolding encode base64_encode smallchat.Utils.replace_emojis Decimal.print_int Decimal.print
    smallchat.Codec.Base64.encode_end next_word rest_of_line
whispered_run = refl

whisper-screen_example :
    Sends 5 (frame_of env ann_aloud to_bob) two_clients (whisper env 4 ann_aloud to_bob two_clients)
    × (Sends 4
          (frame_of env ann_aloud to_bob)
          two_clients
          (whisper env 4 ann_aloud to_bob two_clients)
        × (screen_behind 7 (whispered ∷ []) listening terminal
            ≡ some (whisper_line env ann_aloud (codes "bob") (codes "hi") terminal ∷ [])))
unfolding next_word rest_of_line get_client_by_name lookup
whisper-screen_example =
    whisper-screen env 4 ann_aloud bob to_bob two_clients refl refl
      (hi-IsOneLine (codes "bob") MessageType.private (ground arith) (ground arith) (ground arith))
      7 (whispered ∷ []) listening terminal listening-IsHearing (ground arith) (sym whispered_run)
