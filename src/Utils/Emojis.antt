-- ===== src/Utils/Emojis.antt =====
-- src/common.cpp, replaceEmojis: what its loops do, told without fuel.
use smallchat.Base.{
  ℕ, zero, suc, ◌≡◌, ◌≢◌, ◌≤◌, refl, sym, ap, subst, true, false, Bool-cases, inl, inr, List, [],
  ◌∷◌, ◌++◌, Bytes, arith, length, take, drop, take-drop, length-append, length-drop, equal_iff,
  All,
}
use smallchat.Utils.{starts_with, replace_all, replace_emojis}

-- The run of the `while` on the text from `pos` on, and what it makes of that text.
pub data Replaced (code emoji : Bytes) : Bytes → Bytes → Type 0 where
  at_end : Replaced code emoji [] []
  found :
      {s rest : Bytes}
      → Replaced code emoji s rest
      → Replaced code emoji (code ++ s) (emoji ++ rest)
  passes :
      {c : ℕ} {s rest : Bytes}
      → ((t : Bytes) → c ∷ s ≢ code ++ t)
      → Replaced code emoji s rest
      → Replaced code emoji (c ∷ s) (c ∷ rest)

-- The run of the `for` over the table.
pub data ReplacedAll : List (Bytes × Bytes) → Bytes → Bytes → Type 0 where
  no_code : {s : Bytes} → ReplacedAll [] s s
  next_code :
      {code emoji s t u : Bytes} {table : List (Bytes × Bytes)}
      → Replaced code emoji s t
      → ReplacedAll table t u
      → ReplacedAll ((code, emoji) ∷ table) s u

take-length : (a s : Bytes) → take (length a) (a ++ s) ≡ a
take-length [] s = refl
take-length (c ∷ a) s = ap (λ t. c ∷ t) (take-length a s)

starts_with-found : (s code : Bytes) → starts_with s code ≡ true → code ++ drop (length code) s ≡ s
unfolding starts_with
starts_with-found s code h =
    grind (arith, equal_iff (take (length code) s) code, take-drop (length code) s)

starts_with-append : (code t : Bytes) → starts_with (code ++ t) code ≡ true
unfolding starts_with
starts_with-append code t = grind (
  arith,
  equal_iff (take (length code) (code ++ t)) code,
  take-length code t,
  length-append code t,
)

starts_with-other : (s code t : Bytes) → starts_with s code ≡ false → s ≢ code ++ t
starts_with-other s code t other e =
    let starts = subst (λ x. starts_with x code ≡ true) (sym e) (starts_with-append code t) in
    grind (arith, starts)

module _ (code emoji : Bytes) (h : 1 ≤ length code) where
  replace_all-Replaced :
      (fuel : ℕ) (s : Bytes)
      → length s ≤ fuel
      → Replaced code emoji s (replace_all fuel code emoji s)
  unfolding replace_all
  replace_all-Replaced zero [] enough = at_end
  replace_all-Replaced zero (c ∷ s) enough = absurd (omega arith)
  replace_all-Replaced (suc fuel) [] enough = at_end
  replace_all-Replaced (suc fuel) (c ∷ s) enough = elim (Bool-cases (starts_with (c ∷ s) code)) [
    | inl starts ↦
        let rest = drop (length code) (c ∷ s) in
        rw (starts, replace_all)
          (subst (λ t. Replaced code emoji t (emoji ++ replace_all fuel code emoji rest))
            (starts_with-found (c ∷ s) code starts)
            (found
              (replace_all-Replaced fuel rest (omega (arith, length-drop (length code) (c ∷ s))))))
    | inr other ↦
        rw (other, replace_all)
          (passes (λ t e. starts_with-other (c ∷ s) code t other e)
            (replace_all-Replaced fuel s (omega arith)))
  ]

-- The loops of replaceEmojis end, for a table without empty codes in any order of the iteration: they
-- run on the text as written, one code after the other, and the result is what replace_emojis gives,
-- its fuel being enough.
pub replace_emojis-terminates :
    (table : List (Bytes × Bytes)) (s : Bytes)
    → All (λ entry. 1 ≤ length entry.0) table
    → ReplacedAll table s (replace_emojis table s)
unfolding replace_emojis
replace_emojis-terminates [] s h = no_code
replace_emojis-terminates ((code, emoji) ∷ table) s (h, rest) =
    next_code (replace_all-Replaced code emoji h (length s) s (omega arith))
      (replace_emojis-terminates table (replace_all (length s) code emoji s) rest)
