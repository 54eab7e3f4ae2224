-- ===== src/Server/Tests/Threads.antt =====
-- The client's thread at concrete inputs.
use smallchat.Base.{
  ℕ, ◌≡◌, refl, Bool, true, none, some, List, [], ◌∷◌, ◌++◌, codes, arith, eqb, if◌then◌else◌,
}
use smallchat.Codec.Message.{newline}
use smallchat.Server.Leave.Never.Lines.{has_stopped, handle_client-has_stopped}
use smallchat.Server.Life.{join_threads}
use smallchat.Server.Life.Mutex.{behind, Scene, Steps, locked}
use smallchat.Server.Life.Mutex.Held.{IsDeadlock, ends_of, join_threads-Steps}
use smallchat.Server.Line.{run, accept}
use smallchat.Server.Tests.Data.{env, one_client}
use smallchat.Server.Threads.{handle_client}
use smallchat.Server.Threads.Chunks.{arrive, inputs, ends, handle_client-run}

handle_client-run_example :
    handle_client
      (λ n. env)
      0
      4
      (arrive (codes "hel" ∷ (codes "lo\n/users" ++ (newline ∷ [])) ∷ []))
      []
      one_client
    ≡ ends (run (inputs (λ n. env) 0 4 (codes "hello" ∷ codes "/users" ∷ [])) one_client)
handle_client-run_example =
    handle_client-run (λ n. env) 4 (codes "hello" ∷ codes "/users" ∷ [])
      (codes "hel" ∷ (codes "lo\n/users" ++ (newline ∷ [])) ∷ []) one_client (ground arith)
      (ground arith) refl

handle_client-has_stopped_example :
    has_stopped (
      handle_client
        (λ n. env)
        0
        5
        (arrive (codes "/login eve\nhel" ∷ (codes "lo" ++ (newline ∷ [])) ∷ []))
        []
        (accept 5 (codes "127.0.0.1") 5000 0 one_client))
    ≡ true
handle_client-has_stopped_example =
    handle_client-has_stopped (λ n. env) 5 (codes "127.0.0.1") 5000 0
      (codes "/login eve" ∷ codes "hello" ∷ [])
      (codes "/login eve\nhel" ∷ (codes "lo" ++ (newline ∷ [])) ∷ []) one_client (ground arith)
      (ground arith) refl

-- The client on socket 4 has gone, and the one on socket 5 is silent.
abbrev one_course : ℕ → List ℕ
one_course fd = if eqb fd 4 then 4 ∷ [] else []

abbrev two_threads : List (ℕ × Bool)
two_threads = (5, true) ∷ (4, true) ∷ []

join_threads-Steps_example :
    (join_threads (ends_of one_course) two_threads ≡ none
      → (t : Scene) × (Steps (locked one_course two_threads) t × (t.stand ≡ behind)))
    × ((k : ℕ) (t : Scene)
        → join_threads (ends_of one_course) two_threads ≡ some k
        → Steps (locked one_course two_threads) t
        → IsDeadlock k t)
join_threads-Steps_example = join_threads-Steps one_course two_threads

two_threads_run : join_threads (ends_of one_course) two_threads ≡ some 4
unfolding join_threads
two_threads_run = refl
