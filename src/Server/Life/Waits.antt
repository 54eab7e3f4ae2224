-- ===== src/Server/Life/Waits.antt =====
-- src/server.cpp: stop while a client thread does not end.
use smallchat.Base.{
  ℕ, ◌≡◌, refl, Bool, true, false, not, ◌&&◌, Bool-cases, inl, inr, some, List, [], ◌∷◌, arith,
  lookup, nat_eq, eqb_iff,
}
use smallchat.Server.Life.{Host, System, waits, join_threads, stop, shut}

module _ (ends : ℕ → Bool) where
  join_stuck :
      (fd : ℕ) (threads : List (ℕ × Bool))
      → lookup fd threads ≡ some true
      → ends fd ≡ false
      → (k : ℕ) × (join_threads ends threads ≡ some k)
  unfolding join_threads lookup
  join_stuck fd [] e stuck = absurd (ground arith)
  join_stuck fd ((k, j) ∷ threads) e stuck = elim (Bool-cases (j && not (ends k))) [
    | inl b ↦ (k, ground arith)
    | inr b ↦
        let (i, q) = join_stuck fd threads (ground (arith, eqb_iff k fd)) stuck in (i, ground arith)
  ]

-- If a client's thread can be joined and does not end while stop holds threads_mutex_, stop does what
-- stands before its joins and does not return.
pub stop-waits :
    (sys : System) (ends : ℕ → Bool) (fd : ℕ) (h : Host)
    → h.running ≡ true
    → lookup fd h.server.client_threads ≡ some true
    → ends fd ≡ false
    → (k : ℕ) × (stop sys ends h ≡ waits k (shut sys h))
unfolding stop
stop-waits sys ends fd h on thread stuck =
    let (k, e) = join_stuck ends fd h.server.client_threads thread stuck in (k, rw (on, e) refl)
