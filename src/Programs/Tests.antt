-- ===== src/Programs/Tests.antt =====
-- The programs at concrete inputs.
use smallchat.Base.{◌≡◌, refl, true, false, none, some, [], ◌∷◌, codes, equal}
use smallchat.Client.Connection.{Network}
use smallchat.Programs.{port_of}
use smallchat.Programs.Serve
use smallchat.Programs.Serve.{
  main_server, stands, is_ready, main_server-is_ready, status_loop, stopped_text, status_loop-ends,
}
use smallchat.Server.Life.{System, Disk}
use smallchat.Std.Decimal.{stoi}

port_run : port_of (some (codes "70000")) ≡ some 4464
unfolding port_of stoi
port_run = refl

-- A port that is taken.
abbrev taken : System
taken = record {
  opened = some 3;
  sets_option = true;
  parses = λ host. true;
  binds = false;
  listens = true;
  sets_non_blocking = true;
  now = 0;
  writes_users = true;
  writes_history = true;
}

abbrev empty_disk : Disk
empty_disk = record { users_txt = none; history_txt = none }

main_server-is_ready_example :
    (stands (main_server taken empty_disk none) ≡ false)
    × (smallchat.Programs.Serve.has_failed (main_server taken empty_disk none) ≡ true)
unfolding port_of
main_server-is_ready_example = main_server-is_ready taken empty_disk 8888 none refl

abbrev net : Network
net = record { opened = some 3; parses = equal (codes "127.0.0.1"); connects = true }

status_run :
    status_loop ((true, 0) ∷ (true, 2) ∷ (false, 2) ∷ [])
    ≡ ((13 ∷ codes "Online clients: 2          ") ∷ stopped_text ∷ [], true)
unfolding status_loop smallchat.Programs.Serve.status_text smallchat.Std.Decimal.print
status_run = refl
