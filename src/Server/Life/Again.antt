-- ===== src/Server/Life/Again.antt =====
-- src/server.cpp: stop and the next start of the same object.
use smallchat.Base.{ℕ, ◌≡◌, refl, ap, ◌∙◌, Bool, true, some, ◌++◌, Bytes, All, arith, nat_eq}
use smallchat.Codec.Message.Line.{IsOneLine}
use smallchat.Server.History.{load_message_history}
use smallchat.Server.History.Bounds.{IsBounded}
use smallchat.Server.History.Files.{reloaded}
use smallchat.Server.History.Recorded.{Quiet-IsBounded}
use smallchat.Server.History.Log.{latest}
use smallchat.Server.Life.{
  Host, System, started, serve, start, close_listening, stopped, without_threads, close_clients,
  stop, shut,
}
use smallchat.Server.State.{Server}
use smallchat.Server.Life.Restart.{IsReady, start_ready, stop_idle, save_all, load_saved}

serve_again :
    (sys sys' : System) (h : Host) (port fd : ℕ)
    → let closed = without_threads (shut sys h) in
      (again : Host) × ((serve sys' port (record closed { server_fd = some fd }) ≡ started again)
        × ((t : Server) × ((again.server
                ≡ (load_message_history sys'.now (shut sys h).disk.history_txt t).0)
              × ((t.message_history ≡ h.server.message_history)
                  × (t.room_message_history ≡ h.server.room_message_history)))))
unfolding serve shut close_clients close_listening
serve_again sys sys' h port fd = (_, (refl, (_, (refl, (ground arith, ground arith)))))

-- A server that is stopped and started again as the same object keeps its messages and loads them once
-- more: each is there twice, as far as 1000 messages reach.
pub start-again :
    (sys sys' : System) (ends : ℕ → Bool) (h : Host) (port fd : ℕ) (host : Bytes)
    → h.running ≡ true
    → All (λ t. ends t.0 ≡ true) h.server.client_threads
    → sys.writes_users ≡ true
    → sys.writes_history ≡ true
    → All IsOneLine h.server.message_history
    → IsBounded h.server
    → IsReady sys' host fd
    → (stop sys ends h ≡ stopped (without_threads (shut sys h)))
      × ((again : Host) × ((start sys' port host (without_threads (shut sys h)) ≡ started again)
            × (again.server.message_history
                ≡ latest 1000
                    (h.server.message_history ++ reloaded sys'.now h.server.message_history))))
start-again sys sys' ends h port fd host on idle wu wh lines bounded ready =
    let (again, (e, (t, (same, (kept, rooms))))) = serve_again sys sys' h port fd in
    let loaded =
      same ∙ ap (λ d. (load_message_history sys'.now d.history_txt t).0) (save_all sys h wu wh) in
    (
      stop_idle sys ends h on idle,
      (
        again,
        (
          start_ready sys' port host fd (without_threads (shut sys h)) ready ∙ e,
          ap (λ s. s.message_history) loaded
              ∙ load_saved sys'.now h.server t lines
                  (Quiet-IsBounded (record { history = kept; rooms = rooms }) bounded)
              ∙ ap (λ k. latest 1000 (k ++ reloaded sys'.now h.server.message_history)) kept,
        ),
      ),
    )
