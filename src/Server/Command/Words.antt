-- ===== src/Server/Command/Words.antt =====
-- src/server.cpp: the words of handleCommand and their short forms. A second branch for /register
-- stands below the first, with the same text.
use smallchat.Base.{◌||◌, Bytes, codes, equal, List, [], ◌∷◌, if◌then◌else◌, ◌≢◌, arith}

pub data Word : Type 0 where
  login register users whisper help quit nick info register_again : Word
  create_room join_room leave_room rooms room_members : Word
  history room_history mute unmute kick transfer file unknown : Word

-- The chain of tests: `cmd == long || cmd == short`, and the branch.
abbrev table : List (Bytes × Bytes × Word)
table =
    (codes "/login", codes "/l", Word.login)
    ∷ (codes "/register", codes "/r", Word.register)
    ∷ (codes "/users", codes "/u", Word.users)
    ∷ (codes "/whisper", codes "/w", Word.whisper)
    ∷ (codes "/help", codes "/h", Word.help)
    ∷ (codes "/quit", codes "/q", Word.quit)
    ∷ (codes "/nick", codes "/n", Word.nick)
    ∷ (codes "/info", codes "/info", Word.info)
    ∷ (codes "/register", codes "/r", Word.register_again)
    ∷ (codes "/createroom", codes "/cr", Word.create_room)
    ∷ (codes "/joinroom", codes "/jr", Word.join_room)
    ∷ (codes "/leaveroom", codes "/lr", Word.leave_room)
    ∷ (codes "/rooms", codes "/ro", Word.rooms)
    ∷ (codes "/roommembers", codes "/rm", Word.room_members)
    ∷ (codes "/history", codes "/history", Word.history)
    ∷ (codes "/roomhistory", codes "/roomhistory", Word.room_history)
    ∷ (codes "/mute", codes "/mute", Word.mute)
    ∷ (codes "/unmute", codes "/unmute", Word.unmute)
    ∷ (codes "/kick", codes "/kick", Word.kick)
    ∷ (codes "/transfer", codes "/t", Word.transfer)
    ∷ (codes "/file", codes "/file", Word.file)
    ∷ []

unfoldable pub look : List (Bytes × Bytes × Word) → Bytes → Word
look [] cmd = Word.unknown
look ((long, short, word) ∷ rest) cmd =
    if equal cmd long || equal cmd short then word else look rest cmd

unfoldable pub word_of : Bytes → Word
unfolding look
word_of = look table

-- The second branch is never reached.
pub word_of-first : (cmd : Bytes) → word_of cmd ≢ Word.register_again
unfolding word_of look
word_of-first cmd e = ground (arith, e)
