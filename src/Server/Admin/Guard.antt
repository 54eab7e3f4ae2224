-- ===== src/Server/Admin/Guard.antt =====
-- src/server.cpp: who may use the administrator's commands.
use smallchat.Base.{ℕ, ◌≡◌, false, Bytes, codes, arith, ◌⊎◌, nat_eq, bytes_eq}
use smallchat.Codec.Frames.{encode_error}
use smallchat.Server.Admin.{mute, unmute, kick}
use smallchat.Server.Command.{run_word}
use smallchat.Server.Command.Words.{Word}
use smallchat.Server.Send.{send}
use smallchat.Server.State.{ClientInfo, Server, Env, returns}

module _ (env : Env) (fd : ℕ) (c : ClientInfo) (cmd args command : Bytes) (s : Server) where
  -- /mute, /unmute and /kick of a client that is no administrator have one effect, an error to it.
  pub run_word_not_admin :
      (w : Word)
      → c.is_admin ≡ false
      → (w ≡ Word.mute) ⊎ ((w ≡ Word.unmute) ⊎ (w ≡ Word.kick))
      → run_word w env fd c cmd args command s
        ≡ returns (send fd (encode_error (codes "Admin permission required")) s)
  unfolding run_word mute unmute kick
  run_word_not_admin w plain kind = ground arith
