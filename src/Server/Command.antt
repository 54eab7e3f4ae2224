-- ===== src/Server/Command.antt =====
-- src/server.cpp: handleCommand. The words are told apart first, and then each has its handler.
pub mod Words
use smallchat.Base.{◌≡◌, refl, Bytes, ℕ}
use smallchat.Server.Account.{login, register, register_again, nick}
use smallchat.Server.Admin.{mute, unmute, kick}
use smallchat.Server.Command.Words.{Word}
use smallchat.Server.Command.Words
use smallchat.Server.Files.{transfer, file_to_room}
use smallchat.Server.Leave.{quit}
use smallchat.Server.Rooms.{create_room, join_room, leave_room, list_rooms, list_members}
use smallchat.Server.State.{ClientInfo, Server, Env, Outcome, returns}
use smallchat.Server.Talk.{
  list_users, whisper, help, info, show_history, show_room_history, unknown_command,
}
use smallchat.Std.Stream.{next_word}

-- `cmd` is the first word, `args` the text behind it, and `command` the whole line.
unfoldable pub run_word :
    Word → Env → ℕ → ClientInfo → Bytes → Bytes → Bytes → Server → Outcome Server
run_word Word.login env fd c cmd args command s = login env fd c args s
run_word Word.register env fd c cmd args command s = register env fd c args s
run_word Word.users env fd c cmd args command s = returns (list_users fd s)
run_word Word.whisper env fd c cmd args command s = returns (whisper env fd c args s)
run_word Word.help env fd c cmd args command s = returns (help fd s)
run_word Word.quit env fd c cmd args command s = quit env fd c s
run_word Word.nick env fd c cmd args command s = returns (nick fd c args s)
run_word Word.info env fd c cmd args command s = returns (info fd s)
run_word Word.register_again env fd c cmd args command s = register_again env fd c args s
run_word Word.create_room env fd c cmd args command s = create_room env fd c args s
run_word Word.join_room env fd c cmd args command s = join_room env fd c args s
run_word Word.leave_room env fd c cmd args command s = returns (leave_room fd c s)
run_word Word.rooms env fd c cmd args command s = returns (list_rooms fd s)
run_word Word.room_members env fd c cmd args command s = returns (list_members fd c s)
run_word Word.history env fd c cmd args command s = returns (show_history env fd args s)
run_word Word.room_history env fd c cmd args command s = returns (show_room_history env fd c args s)
run_word Word.mute env fd c cmd args command s = returns (mute env fd c args s)
run_word Word.unmute env fd c cmd args command s = returns (unmute env fd c args s)
run_word Word.kick env fd c cmd args command s = kick env fd c args s
run_word Word.transfer env fd c cmd args command s = returns (transfer env fd c args s)
run_word Word.file env fd c cmd args command s = returns (file_to_room env fd c args s)
run_word Word.unknown env fd c cmd args command s = returns (unknown_command env fd c cmd command s)

unfoldable pub handle_command : Env → ℕ → ClientInfo → Bytes → Server → Outcome Server
handle_command env fd c command s =
    let (cmd, args) = next_word command in run_word (Words.word_of cmd) env fd c cmd args command s
