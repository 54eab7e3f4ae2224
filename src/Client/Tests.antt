-- ===== src/Client/Tests.antt =====
-- The client at a concrete input.
use smallchat.Base.{◌∷◌, ◌≡◌, true, some, [], ◌++◌, codes, arith}
use smallchat.Client.{ChatClient, process_message}
use smallchat.Codec.Frames.{encode_system_message}
use smallchat.Codec.Message.{newline}
use smallchat.Client.Lost.{process_message-system}

abbrev listener : ChatClient
listener = record {
  connected = true;
  running = true;
  message_callback = true;
  system_callback = true;
  userlist_callback = true;
  error_callback = true;
  success_callback = true;
}

process_message-system_example :
    (encode_system_message (codes "hello") ≡ (codes "SYS|" ++ codes "hello") ++ (newline ∷ []))
    × (process_message listener 7 (codes "SYS|" ++ codes "hello") ≡ some [])
process_message-system_example = process_message-system listener 7 (codes "hello") (ground arith)
