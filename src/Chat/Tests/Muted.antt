-- ===== src/Chat/Tests/Muted.antt =====
-- ann, muted in her room, and bob's screen at concrete inputs.
use smallchat.Base.{
  ◌≡◌, refl, sym, true, some, [], ◌∷◌, Bytes, codes, arith, lookup, nat_eq, bytes_eq,
}
use smallchat.Chat.{Sends, screen_behind}
use smallchat.Chat.Muted.{IsSilenced, handle_line-unknown_screen}
use smallchat.Chat.Said.{said_line}
use smallchat.Chat.Tests.{bob, ann_inside, in_room, listening, terminal, listening-IsHearing}
use smallchat.Codec.Base64.{base64_encode}
use smallchat.Codec.Message.{encode, MessageType}
use smallchat.Codec.Message.Line.{IsOneLine}
use smallchat.Server.Command.Words
use smallchat.Server.Line.{handle_line, kind_of}
use smallchat.Server.Messages.{still_muted}
use smallchat.Server.Send.{room_sockets}
use smallchat.Server.State.{ClientInfo, Server, returns}
use smallchat.Server.Talk.{message_of}
use smallchat.Server.Tests.Data.{env}
use smallchat.Std.Decimal
use smallchat.Std.Stream.{next_word}

-- ann in the room "hall", muted up to the time 2000.
abbrev ann_muted : ClientInfo
ann_muted = record ann_inside { is_muted = true; mute_end_time = 2000 }

abbrev muted_room : Server
muted_room = record in_room {
  clients = (4, ann_muted) ∷ (5, record bob { current_room = codes "hall" }) ∷ [];
}

muted-IsSilenced : IsSilenced env muted_room 4 ann_muted
unfolding lookup
muted-IsSilenced = record {
  there = refl;
  logged_in = refl;
  muted = refl;
  lasts = refl;
  in_room = refl;
}

abbrev shouted : Bytes
shouted = codes "MSG|ann|hall|18|L2hp|1_2\n"

shouted_run :
    encode (message_of env ann_muted (codes "hall") MessageType.room_message (codes "/hi"))
    ≡ shouted
unfolding encode base64_encode smallchat.Utils.replace_emojis Decimal.print_int Decimal.print
    smallchat.Codec.Base64.encode_end smallchat.Codec.Base64.quad
shouted_run = refl

shout-IsOneLine :
    IsOneLine (message_of env ann_muted (codes "hall") MessageType.room_message (codes "/hi"))
unfolding smallchat.Utils.replace_emojis
shout-IsOneLine = record {
  sendable = record {
    sender_plain = ground arith;
    receiver_plain = ground arith;
    type_fits = ground arith;
    content_bytes = ground arith;
  };
  sender_line = ground arith;
  receiver_line = ground arith;
  id_line = ground arith;
}

handle_line-unknown_screen_example :
    (handle_line env 4 (codes "hi") muted_room ≡ returns (still_muted 4 muted_room))
    × ((v : Server) × ((handle_line env 4 (codes "/hi") muted_room ≡ returns v)
          × (Sends 5
                (encode
                  (message_of env ann_muted (codes "hall") MessageType.room_message (codes "/hi")))
                muted_room
                v
              × (screen_behind 7 (shouted ∷ []) listening terminal
                  ≡ some (said_line env ann_muted (codes "/hi") terminal ∷ [])))))
unfolding lookup kind_of room_sockets next_word Words.word_of
handle_line-unknown_screen_example =
    handle_line-unknown_screen env 4 5 ann_muted muted_room (codes "hi") (codes "/hi")
      muted-IsSilenced refl refl refl refl refl shout-IsOneLine (4 ∷ [], ([], refl)) 7
      (shouted ∷ []) listening terminal listening-IsHearing (ground arith) (sym shouted_run)
