-- ===== src/Server/Life/Mutex/Ahead.antt =====
-- src/server.cpp: stop against a client thread that is about to remove its own client.
use smallchat.Base.{
  ℕ, ◌≡◌, ◌≢◌, refl, sym, ◌∙◌, ap, Bool-cases, Bool, true, false, ◌⊎◌, inl, inr, some, List, [],
  ◌∷◌, arith, eqb, eqb_iff, is_empty, lookup, erase, lookup-erase, nat_eq,
}
use smallchat.Server.Life.Mutex.{
  free, by_stop, before, joining, Scene, set, ThreadStep, Step, in_thread, stop_locks, stop_joins,
  stop_skips, stop_unlocks, returns, locks, finds_none, erases, joins, joins_itself, Steps, here,
  then_step, closing,
}
use smallchat.Server.Life.Mutex.Held.{IsDeadlock, is_joined, Step-IsDeadlock}

-- stop has not locked the mutex, and the thread has its own client to remove.
pub record IsAhead (fd : ℕ) (s : Scene) : Type 0 where
  pub stand : s.stand ≡ before
  pub thread : lookup fd s.client_threads ≡ some true
  pub course : (later : List ℕ) × (s.courses fd ≡ fd ∷ later)
  pub runs : s.returned fd ≡ false

is_joined_entry :
    (fd : ℕ) (threads : List (ℕ × Bool))
    → lookup fd threads ≡ some true
    → is_joined fd threads ≡ true
unfolding is_joined lookup
is_joined_entry fd [] e = absurd (ground (arith, e))
is_joined_entry fd ((k, j) ∷ threads) e = ground (arith, is_joined_entry fd threads, eqb_iff k fd)

locked-IsDeadlock :
    (fd : ℕ) {s : Scene}
    → IsAhead fd s
    → s.aborted ≡ false
    → IsDeadlock fd (record s { mutex = by_stop; stand = joining s.client_threads })
locked-IsDeadlock fd {s} v a = record {
  mutex = refl;
  stand = (s.client_threads, (refl, is_joined_entry fd s.client_threads v.thread));
  course = ap is_empty v.course.1;
  runs = v.runs;
  alive = a;
}

differs : {A : Type 0} (f : ℕ → A) (j fd : ℕ) → f j ≢ f fd → eqb j fd ≡ false
differs f j fd other = elim (Bool-cases (eqb j fd)) [
  | inl same ↦ absurd (other (ap f ((eqb_iff j fd).0 same)))
  | inr e ↦ e
]

-- A call that another thread makes leaves this thread its own.
done_other :
    (fd k j : ℕ) {s : Scene} (later : List ℕ)
    → s.courses k ≡ j ∷ later
    → eqb j fd ≡ false
    → IsAhead fd s
    → (rest : List ℕ) × (set k later s.courses fd ≡ fd ∷ rest)
unfolding set
done_other fd k j {s} later c other v = elim (Bool-cases (eqb k fd)) [
  | inl own ↦
      let same : j ∷ later ≡ fd ∷ v.course.0 =
        sym c ∙ ap s.courses ((eqb_iff k fd).0 own) ∙ v.course.1 in
      absurd (ground (arith, same, other, eqb_iff j fd))
  | inr e ↦ (v.course.0, rw e v.course.1)
]

-- What a thread does at the end of a call for another client.
unlocked :
    (fd k j : ℕ) {s : Scene} (later : List ℕ) (threads : List (ℕ × Bool))
    → s.courses k ≡ j ∷ later
    → eqb j fd ≡ false
    → lookup fd threads ≡ some true
    → IsAhead fd s
    → IsAhead fd
        (record s { mutex = free; courses = set k later s.courses; client_threads = threads })
unlocked fd k j later threads c other thread v = record {
  stand = v.stand;
  thread = thread;
  course = done_other fd k j later c other v;
  runs = v.runs;
}

erase_other :
    (fd j : ℕ) (threads : List (ℕ × Bool))
    → eqb j fd ≡ false
    → lookup fd threads ≡ some true
    → lookup fd (erase j threads) ≡ some true
erase_other fd j threads other thread = lookup-erase j fd threads ∙ rw other thread

returned_other :
    (fd k : ℕ) {s : Scene}
    → s.courses k ≡ []
    → IsAhead fd s
    → IsAhead fd (record s { returned = set k true s.returned })
unfolding set
returned_other fd k {s} c v =
    let other : eqb k fd ≡ false =
      differs s.courses k fd (λ e. absurd (ground (arith, sym c ∙ e ∙ v.course.1))) in
    record { stand = v.stand; thread = v.thread; course = v.course; runs = rw other v.runs }

ThreadStep-IsAhead : (fd : ℕ) {s t : Scene} → ThreadStep s t → IsAhead fd s → IsAhead fd t
ThreadStep-IsAhead fd (returns k a c) v = returned_other fd k c v
ThreadStep-IsAhead fd (locks k j later a c m) v = record {
  stand = v.stand;
  thread = v.thread;
  course = v.course;
  runs = v.runs;
}
ThreadStep-IsAhead fd (finds_none {s} k j later a c m l) v =
    let other =
      differs (λ i. lookup i s.client_threads) j fd
        (λ e. absurd (ground (arith, sym l ∙ e ∙ v.thread))) in
    unlocked fd k j later s.client_threads c other v.thread v
ThreadStep-IsAhead fd (erases {s} k j later a c m l) v =
    let other =
      differs (λ i. lookup i s.client_threads) j fd
        (λ e. absurd (ground (arith, sym l ∙ e ∙ v.thread))) in
    unlocked fd k j later _ c other (erase_other fd j s.client_threads other v.thread) v
ThreadStep-IsAhead fd (joins {s} k j later a c m l r) v =
    let other = differs s.returned j fd (λ e. absurd (ground (arith, sym r ∙ e ∙ v.runs))) in
    unlocked fd k j later _ c other (erase_other fd j s.client_threads other v.thread) v
ThreadStep-IsAhead fd (joins_itself k later a c m l) v = record {
  stand = v.stand;
  thread = v.thread;
  course = v.course;
  runs = v.runs;
}

Step-IsAhead : (fd : ℕ) {s t : Scene} → Step s t → IsAhead fd s → (IsAhead fd t) ⊎ (IsDeadlock fd t)
Step-IsAhead fd (stop_locks a at m) v = inr (locked-IsDeadlock fd v a)
Step-IsAhead fd (stop_joins k threads a at r) v = absurd (ground (arith, v.stand, at))
Step-IsAhead fd (stop_skips k threads a at) v = absurd (ground (arith, v.stand, at))
Step-IsAhead fd (stop_unlocks a at) v = absurd (ground (arith, v.stand, at))
Step-IsAhead fd (in_thread i) v = inl (ThreadStep-IsAhead fd i v)

pub Steps-IsAhead :
    (fd : ℕ) {s t : Scene}
    → Steps s t
    → (IsAhead fd s) ⊎ (IsDeadlock fd s)
    → (t.stand ≡ before) ⊎ (IsDeadlock fd t)
Steps-IsAhead fd here (inl v) = inl v.stand
Steps-IsAhead fd here (inr v) = inr v
Steps-IsAhead fd (then_step i r) (inl v) = Steps-IsAhead fd r (Step-IsAhead fd i v)
Steps-IsAhead fd (then_step i r) (inr v) = Steps-IsAhead fd r (inr (Step-IsDeadlock fd i v))

-- stop behind its closing of the sockets, with a client thread that has its own client to remove.
pub closing-IsAhead :
    (courses : ℕ → List ℕ) (threads : List (ℕ × Bool)) (fd : ℕ) (later : List ℕ)
    → lookup fd threads ≡ some true
    → courses fd ≡ fd ∷ later
    → IsAhead fd (closing courses threads)
closing-IsAhead courses threads fd later thread course = record {
  stand = refl;
  thread = thread;
  course = (later, course);
  runs = refl;
}
