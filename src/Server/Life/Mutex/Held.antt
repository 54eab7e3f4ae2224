-- ===== src/Server/Life/Mutex/Held.antt =====
-- src/server.cpp: the joins of stop while it holds threads_mutex_.
use smallchat.Base.{
  ℕ, ◌≡◌, refl, sym, ◌∙◌, ap, subst, Bool, true, false, ◌&&◌, ◌||◌, Bool-cases, inl, inr, none,
  some, List, [], ◌∷◌, arith, eqb, eqb_iff, is_empty,
}
use smallchat.Server.Life.{join_threads}
use smallchat.Server.Life.Mutex.{
  by_stop, before, behind, joining, Scene, Stand, set, ThreadStep, Step, in_thread, stop_locks,
  stop_joins, stop_skips, stop_unlocks, returns, locks, finds_none, erases, joins, joins_itself,
  Steps, here, then_step, locked,
}

-- The thread is among those that are still joined.
unfoldable pub is_joined : ℕ → List (ℕ × Bool) → Bool
is_joined fd [] = false
is_joined fd ((k, joinable) ∷ threads) = (joinable && eqb k fd) || is_joined fd threads

-- stop holds the mutex and joins a thread that has not returned and waits for the mutex.
pub record IsDeadlock (fd : ℕ) (s : Scene) : Type 0 where
  pub mutex : s.mutex ≡ by_stop
  pub stand :
      (threads : List (ℕ × Bool)) × ((s.stand ≡ joining threads) × (is_joined fd threads ≡ true))
  pub course : is_empty (s.courses fd) ≡ false
  pub runs : s.returned fd ≡ false
  pub alive : s.aborted ≡ false

-- What the loop has left.
abbrev rest_of : Stand → List (ℕ × Bool)
rest_of (joining threads) = threads
rest_of before = []
rest_of behind = []

-- The loop stands where it joins something, and the thread is behind it.
at_entry :
    (fd : ℕ) {s : Scene} {threads : List (ℕ × Bool)}
    → IsDeadlock fd s
    → s.stand ≡ joining threads
    → is_joined fd threads ≡ true
at_entry fd v at = let (ts, (e, q)) = v.stand in ap (λ u. is_joined fd (rest_of u)) (sym at ∙ e) ∙ q

goes_on :
    (fd : ℕ) {s : Scene} (threads : List (ℕ × Bool))
    → IsDeadlock fd s
    → is_joined fd threads ≡ true
    → IsDeadlock fd (record s { stand = joining threads })
goes_on fd threads v q = record {
  mutex = v.mutex;
  stand = (threads, (refl, q));
  course = v.course;
  runs = v.runs;
  alive = v.alive;
}

returned_other :
    (fd k : ℕ) {s : Scene}
    → IsDeadlock fd s
    → s.courses k ≡ []
    → IsDeadlock fd (record s { returned = set k true s.returned })
unfolding set
returned_other fd k v c = record {
  mutex = v.mutex;
  stand = v.stand;
  course = v.course;
  runs = ground (arith, eqb_iff k fd, v.runs, v.course, c);
  alive = v.alive;
}

ThreadStep-IsDeadlock : (fd : ℕ) {s t : Scene} → ThreadStep s t → IsDeadlock fd s → IsDeadlock fd t
ThreadStep-IsDeadlock fd (returns k a c) v = returned_other fd k v c
ThreadStep-IsDeadlock fd (locks k j later a c m) v = absurd (ground (arith, v.mutex, m))
ThreadStep-IsDeadlock fd (finds_none k j later a c m l) v = absurd (ground (arith, v.mutex, m))
ThreadStep-IsDeadlock fd (erases k j later a c m l) v = absurd (ground (arith, v.mutex, m))
ThreadStep-IsDeadlock fd (joins k j later a c m l r) v = absurd (ground (arith, v.mutex, m))
ThreadStep-IsDeadlock fd (joins_itself k later a c m l) v = absurd (ground (arith, v.mutex, m))

pub Step-IsDeadlock : (fd : ℕ) {s t : Scene} → Step s t → IsDeadlock fd s → IsDeadlock fd t
unfolding is_joined
Step-IsDeadlock fd (stop_locks a at m) v = absurd (ground (arith, v.mutex, m))
Step-IsDeadlock fd (stop_joins k threads a at r) v =
    goes_on fd threads v (ground (arith, eqb_iff k fd, v.runs, r, at_entry fd v at))
Step-IsDeadlock fd (stop_skips k threads a at) v =
    goes_on fd threads v (ground (arith, at_entry fd v at))
Step-IsDeadlock fd (stop_unlocks a at) v = absurd (ground (arith, at_entry fd v at))
Step-IsDeadlock fd (in_thread i) v = ThreadStep-IsDeadlock fd i v

Steps-IsDeadlock : (fd : ℕ) {s t : Scene} → Steps s t → IsDeadlock fd s → IsDeadlock fd t
Steps-IsDeadlock fd here v = v
Steps-IsDeadlock fd (then_step i r) v = Steps-IsDeadlock fd r (Step-IsDeadlock fd i v)

-- A thread ends by itself while stop holds the mutex if it has no call of removeClient left.
abbrev pub ends_of : (ℕ → List ℕ) → ℕ → Bool
ends_of courses fd = is_empty (courses fd)

first_joined :
    (courses : ℕ → List ℕ) (threads : List (ℕ × Bool)) (k : ℕ)
    → join_threads (ends_of courses) threads ≡ some k
    → (is_joined k threads ≡ true) × (is_empty (courses k) ≡ false)
unfolding join_threads is_joined
first_joined courses [] k e = absurd (ground (arith, e))
first_joined courses ((fd, false) ∷ threads) k e = first_joined courses threads k e
first_joined courses ((fd, true) ∷ threads) k e = elim (Bool-cases (is_empty (courses fd))) [
  | inl ends ↦
      let (joined, course) = first_joined courses threads k (ground (arith, e, ends)) in
      (ground (arith, joined), course)
  | inr stays ↦
      let this : fd ≡ k = ground (arith, e, stays) in
      (ground (arith, eqb_iff fd k, this), subst (λ j. is_empty (courses j) ≡ false) this stays)
]

set-same : (k : ℕ) (f : ℕ → Bool) → set k true f k ≡ true
unfolding set
set-same k f = ground (arith, eqb_iff k k)

is_empty-nil : (l : List ℕ) → is_empty l ≡ true → l ≡ []
is_empty-nil [] e = refl
is_empty-nil (x ∷ l) e = absurd (ground arith)

joins_all :
    (threads : List (ℕ × Bool)) (s : Scene)
    → s.aborted ≡ false
    → s.stand ≡ joining threads
    → join_threads (ends_of s.courses) threads ≡ none
    → (t : Scene) × (Steps s t × (t.stand ≡ behind))
unfolding join_threads
joins_all [] s a at e = (_, (then_step (stop_unlocks a at) here, refl))
joins_all ((fd, false) ∷ threads) s a at e =
    let (t, (r, b)) = joins_all threads (record s { stand = joining threads }) a refl e in
    (t, (then_step (stop_skips fd threads a at) r, b))
joins_all ((fd, true) ∷ threads) s a at e =
    let ends : is_empty (s.courses fd) ≡ true = ground (arith, e) in
    let over = record s { returned = set fd true s.returned } in
    let (t, (r, b)) =
      joins_all threads (record over { stand = joining threads }) a refl
        (ground (arith, e, ends)) in
    (
      t,
      (
        then_step (in_thread (returns fd a (is_empty-nil (s.courses fd) ends)))
            (then_step (stop_joins {s = over} fd threads a at (set-same fd s.returned)) r),
        b,
      ),
    )

-- join_threads tells the end of stop: once stop has threads_mutex_, with a thread for each entry that
-- has not returned, then if `join_threads` finds no thread there is an order of the steps in which stop
-- returns; and if it finds one, stop holds the mutex in whatever order the threads take their steps,
-- does not return, and the thread that was found neither ends nor gets the mutex.
pub join_threads-Steps :
    (courses : ℕ → List ℕ) (threads : List (ℕ × Bool))
    → (join_threads (ends_of courses) threads ≡ none
        → (t : Scene) × (Steps (locked courses threads) t × (t.stand ≡ behind)))
      × ((k : ℕ) (t : Scene)
          → join_threads (ends_of courses) threads ≡ some k
          → Steps (locked courses threads) t
          → IsDeadlock k t)
join_threads-Steps courses threads = (
  λ e. joins_all threads (locked courses threads) refl refl e,
  λ k t e r.
      let (joined, course) = first_joined courses threads k e in
      Steps-IsDeadlock k r (record {
        mutex = refl;
        stand = (threads, (refl, joined));
        course = course;
        runs = refl;
        alive = refl;
      }),
)
