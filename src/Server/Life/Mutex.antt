-- ===== src/Server/Life/Mutex.antt =====
-- src/server.cpp: threads_mutex_ between the end of stop, which joins the client threads, and
-- removeClient, which the client threads call. The threads take turns, step by step.
pub mod Held
pub mod Ahead
use smallchat.Base.{
  ℕ, ◌≡◌, Bool, true, false, none, some, List, [], ◌∷◌, eqb, if◌then◌else◌, lookup, erase, nat_eq,
}

-- Who holds threads_mutex_.
pub data Mutex : Type 0 where
  free by_stop : Mutex
  by_thread : ℕ → Mutex

-- Where stop stands behind its closing of the sockets: before the lock, in the loop with what is left
-- of client_threads_, or back.
pub data Stand : Type 0 where
  before behind : Stand
  joining : List (ℕ × Bool) → Stand

-- `courses k` are the sockets that the thread of the client `k` will still call removeClient for: its
-- own one where `recv` gives no data, and at /quit, and another one at /kick. `aborted` is
-- std::terminate.
pub record Scene : Type 0 where
  pub stand : Stand
  pub mutex : Mutex
  pub client_threads : List (ℕ × Bool)
  pub courses : ℕ → List ℕ
  pub returned : ℕ → Bool
  pub aborted : Bool

unfoldable pub set {ℓ} : {A : Type ℓ} → ℕ → A → (ℕ → A) → ℕ → A
set k a f j = if eqb k j then a else f j

-- A step of the thread of the client `k`: it returns, or it takes the mutex in removeClient and looks
-- its socket up in client_threads_; a join of a thread that has not returned is no step.
pub data ThreadStep : Scene → Scene → Type 0 where
  returns :
      {s : Scene} (k : ℕ)
      → s.aborted ≡ false
      → s.courses k ≡ []
      → ThreadStep s (record s { returned = set k true s.returned })
  locks :
      {s : Scene} (k fd : ℕ) (later : List ℕ)
      → s.aborted ≡ false
      → s.courses k ≡ fd ∷ later
      → s.mutex ≡ free
      → ThreadStep s (record s { mutex = by_thread k })
  finds_none :
      {s : Scene} (k fd : ℕ) (later : List ℕ)
      → s.aborted ≡ false
      → s.courses k ≡ fd ∷ later
      → s.mutex ≡ by_thread k
      → lookup fd s.client_threads ≡ none
      → ThreadStep s (record s { mutex = free; courses = set k later s.courses })
  erases :
      {s : Scene} (k fd : ℕ) (later : List ℕ)
      → s.aborted ≡ false
      → s.courses k ≡ fd ∷ later
      → s.mutex ≡ by_thread k
      → lookup fd s.client_threads ≡ some false
      → ThreadStep s (record s {
        mutex = free;
        courses = set k later s.courses;
        client_threads = erase fd s.client_threads;
      })
  joins :
      {s : Scene} (k fd : ℕ) (later : List ℕ)
      → s.aborted ≡ false
      → s.courses k ≡ fd ∷ later
      → s.mutex ≡ by_thread k
      → lookup fd s.client_threads ≡ some true
      → s.returned fd ≡ true
      → ThreadStep s (record s {
        mutex = free;
        courses = set k later s.courses;
        client_threads = erase fd s.client_threads;
      })
  joins_itself :
      {s : Scene} (k : ℕ) (later : List ℕ)
      → s.aborted ≡ false
      → s.courses k ≡ k ∷ later
      → s.mutex ≡ by_thread k
      → lookup k s.client_threads ≡ some true
      → ThreadStep s (record s { aborted = true })

-- A step of stop or of a client thread; nothing steps behind std::terminate.
pub data Step : Scene → Scene → Type 0 where
  stop_locks :
      {s : Scene}
      → s.aborted ≡ false
      → s.stand ≡ before
      → s.mutex ≡ free
      → Step s (record s { mutex = by_stop; stand = joining s.client_threads })
  stop_joins :
      {s : Scene} (fd : ℕ) (threads : List (ℕ × Bool))
      → s.aborted ≡ false
      → s.stand ≡ joining ((fd, true) ∷ threads)
      → s.returned fd ≡ true
      → Step s (record s { stand = joining threads })
  stop_skips :
      {s : Scene} (fd : ℕ) (threads : List (ℕ × Bool))
      → s.aborted ≡ false
      → s.stand ≡ joining ((fd, false) ∷ threads)
      → Step s (record s { stand = joining threads })
  -- clear, and the end of the block
  stop_unlocks :
      {s : Scene}
      → s.aborted ≡ false
      → s.stand ≡ joining []
      → Step s (record s { mutex = free; client_threads = []; stand = behind })
  in_thread : {s t : Scene} → ThreadStep s t → Step s t

pub data Steps : Scene → Scene → Type 0 where
  here : {s : Scene} → Steps s s
  then_step : {s t u : Scene} → Step s t → Steps t u → Steps s u

-- No client thread has returned, and stop is about to lock the mutex.
abbrev pub closing : (ℕ → List ℕ) → List (ℕ × Bool) → Scene
closing courses threads = record {
  stand = before;
  mutex = free;
  client_threads = threads;
  courses = courses;
  returned = λ k. false;
  aborted = false;
}

-- The same, with the mutex.
abbrev pub locked : (ℕ → List ℕ) → List (ℕ × Bool) → Scene
locked courses threads = record (closing courses threads) {
  mutex = by_stop;
  stand = joining threads;
}
