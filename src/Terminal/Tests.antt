-- ===== src/Terminal/Tests.antt =====
-- The terminal and the connection of the client at concrete inputs.
use smallchat.Base.{◌≡◌, refl, true, false, some, [], ◌∷◌, ◌++◌, codes, cut, arith}
use smallchat.Client.{ChatClient, send_message}
use smallchat.Client.Connection.{
  Connection, Network, terminates, connect, stop, disconnect, destroy, new_connection,
}
use smallchat.Client.Connection.Joined.{disconnect-terminates}
use smallchat.Codec.Frames.{encode_success}
use smallchat.Codec.Message.{newline}
use smallchat.Terminal.{Terminal, on_inputs}
use smallchat.Terminal.Gate.{IsGated, on_inputs-IsGated}
use smallchat.Terminal.Login.{IsListening, prompt_behind, login-prompt}

abbrev listener : ChatClient
listener = record {
  connected = true;
  running = true;
  message_callback = true;
  system_callback = true;
  userlist_callback = true;
  error_callback = true;
  success_callback = true;
}

abbrev up : Connection
up = record {
  client = listener;
  socket_fd = some 3;
  host = codes "127.0.0.1";
  port = 8888;
  receiving = true;
  closed = [];
}

abbrev fresh : Terminal
fresh = record {
  client = listener;
  logged_in = false;
  quit = false;
  current_user = [];
  sent = [];
  shown = [];
}

abbrev local : Network
local = record { opened = some 3; parses = λ h. true; connects = true }

connect_run : (connect local (codes "127.0.0.1") 8888 new_connection).1 ≡ true
unfolding connect
connect_run = refl

fresh-IsGated : IsGated fresh
fresh-IsGated = record { out = refl; lines = tt }

up-IsListening : IsListening up
up-IsListening = record { on = refl; up = refl; set = refl }

on_inputs-IsGated_example :
    IsGated (on_inputs (codes "hello" ∷ codes "/login ann" ∷ codes "/quit" ∷ []) fresh)
on_inputs-IsGated_example =
    on_inputs-IsGated (codes "hello" ∷ codes "/login ann" ∷ codes "/quit" ∷ []) fresh fresh-IsGated

sent_run :
    (on_inputs (codes "hello" ∷ codes "/login ann" ∷ codes "/quit" ∷ []) fresh).sent
    ≡ (codes "/login ann" ++ (newline ∷ [])) ∷ []
unfolding on_inputs cut send_message
sent_run = refl

login-prompt_example :
    prompt_behind 7 (codes "OK|Logged " ∷ (codes "in as ann" ++ (newline ∷ [])) ∷ []) up fresh
    ≡ some (codes "[" ++ (codes "ann" ++ codes "] > "))
unfolding encode_success
login-prompt_example =
    login-prompt 7 (codes "OK|Logged " ∷ (codes "in as ann" ++ (newline ∷ [])) ∷ []) up fresh
      (codes "ann") up-IsListening (ground arith) (ground arith) refl

disconnect-terminates_example :
    (destroy up ≡ terminates (disconnect up))
    × (destroy (stop (disconnect up)) ≡ terminates (disconnect up))
disconnect-terminates_example = disconnect-terminates up refl refl
