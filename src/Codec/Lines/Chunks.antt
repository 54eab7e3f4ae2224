-- ===== src/Codec/Lines/Chunks.antt =====
-- The receive buffer over a whole connection, by the way its bytes are cut into chunks.
use smallchat.Base.{
  ℕ, zero, suc, ◌≤◌, ◌<◌, ◌≡◌, refl, sym, ◌∙◌, ap, inl, inr, none, some, List, [], ◌∷◌, ◌++◌,
  append-nil, append_assoc, arith, Bytes, cut, cut_at_sep, length, eqb, if◌then◌else◌, Option-cases,
  Lacks, All, Bool-cases, false,
}
use smallchat.Codec.Lines.{c_string, take_lines, receive, receive_all, send_lines}
use smallchat.Codec.Message.{newline}

-- Lines by one pass over the bytes.
attach : ℕ → List Bytes × Bytes → List Bytes × Bytes
attach c ([], rest) = ([], c ∷ rest)
attach c (l ∷ ls, rest) = ((c ∷ l) ∷ ls, rest)

pub split : Bytes → List Bytes × Bytes
unfolding attach
split [] = ([], [])
split (c ∷ s) = let r = split s in if eqb c newline then ([] ∷ r.0, r.1) else attach c r

split-cut-none : (s : Bytes) → cut newline s ≡ none → split s ≡ ([], s)
unfolding split cut
split-cut-none [] e = refl
split-cut-none (c ∷ s) e = elim (Option-cases (cut newline s)) [
  | inl h ↦ rw (split-cut-none s h) (ground arith)
  | inr (x, h) ↦ absurd (ground arith)
]

split-cut-some :
    (s f r : Bytes) → cut newline s ≡ some (f, r) → split s ≡ (f ∷ (split r).0, (split r).1)
unfolding split cut
split-cut-some [] f r e = cc
split-cut-some (c ∷ s) f r e = elim (Option-cases (cut newline s)) [
  | inl h ↦ ground arith
  | inr (x, h) ↦ ground (arith, split-cut-some s x.0 x.1 h)
]

length-cut : (s f r : Bytes) → cut newline s ≡ some (f, r) → length r < length s
unfolding cut
length-cut [] f r e = cc
length-cut (c ∷ s) f r e = elim (Option-cases (cut newline s)) [
  | inl h ↦ ground arith
  | inr (x, h) ↦ ground (arith, length-cut s x.0 x.1 h)
]

take_lines-split : (fuel : ℕ) (s : Bytes) → length s ≤ fuel → take_lines fuel s ≡ split s
unfolding take_lines
take_lines-split zero [] h = unfold split in refl
take_lines-split zero (c ∷ s) h = absurd (omega arith)
take_lines-split (suc fuel) s h = elim (Option-cases (cut newline s)) [
  | inl e ↦ rw (e, take_lines) (sym (split-cut-none s e))
  | inr ((f, r), e) ↦
      rw (e, take_lines)
        (rw (take_lines-split fuel r (omega (arith, length-cut s f r e)))
          (sym (split-cut-some s f r e)))
]

abbrev prepend : List Bytes → List Bytes × Bytes → List Bytes × Bytes
prepend ls r = (ls ++ r.0, r.1)

attach-prepend :
    (c : ℕ) (p q : List Bytes × Bytes) (t : Bytes)
    → q ≡ prepend p.0 (split (p.1 ++ t))
    → eqb c newline ≡ false
    → attach c q ≡ prepend (attach c p).0 (split ((attach c p).1 ++ t))
unfolding attach split
attach-prepend c ([], rest) q t e n = rw (e, n)
attach-prepend c (l ∷ ls, rest) q t e n = rw e

split-append : (s t : Bytes) → split (s ++ t) ≡ prepend (split s).0 (split ((split s).1 ++ t))
unfolding split
split-append [] t = refl
split-append (c ∷ s) t = elim (Bool-cases (eqb c newline)) [
  | inl e ↦ rw e (rw (split-append s t))
  | inr e ↦ rw e (attach-prepend c (split s) _ t (split-append s t) e)
]

attach_rest :
    (c : ℕ) (p : List Bytes × Bytes)
    → split p.1 ≡ ([], p.1)
    → eqb c newline ≡ false
    → split (attach c p).1 ≡ ([], (attach c p).1)
unfolding attach split
attach_rest c ([], rest) e n = rw (n, e)
attach_rest c (l ∷ ls, rest) e n = e

-- What is left holds no whole line.
split_rest : (s : Bytes) → split (split s).1 ≡ ([], (split s).1)
unfolding split
split_rest [] = refl
split_rest (c ∷ s) = elim (Bool-cases (eqb c newline)) [
  | inl e ↦ rw e (split_rest s)
  | inr e ↦ rw e (attach_rest c (split s) (split_rest s) e)
]

-- No NUL byte.
abbrev pub IsText : Bytes → Type 0
IsText = Lacks 0

c_string-IsText : (s : Bytes) → IsText s → c_string s ≡ s
unfolding c_string
c_string-IsText [] h = refl
c_string-IsText (c ∷ s) h = ground (arith, c_string-IsText s h.1)

abbrev pub joined : List Bytes → Bytes
joined [] = []
joined (c ∷ cs) = c ++ joined cs

receive-split : (b c : Bytes) → IsText c → receive b c ≡ split (b ++ c)
unfolding receive
receive-split b c h = rw (c_string-IsText c h) (take_lines-split _ _ (omega arith))

receive_all-split :
    (b : Bytes) (cs : List Bytes)
    → split b ≡ ([], b)
    → All IsText cs
    → receive_all b cs ≡ split (b ++ joined cs)
unfolding receive_all
receive_all-split b [] e h = rw (append-nil b, e)
receive_all-split b (c ∷ cs) e h = rw (receive-split b c h.0) (
    ap (prepend (split (b ++ c)).0)
      (receive_all-split (split (b ++ c)).1 cs (split_rest (b ++ c)) h.1)
    ∙ sym (split-append (b ++ c) (joined cs))
    ∙ ap split (append_assoc b c (joined cs)))

-- Two ways of cutting the same NUL-free bytes into chunks give the same lines and the same rest.
pub receive_all_chunks :
    (cs ds : List Bytes)
    → All IsText cs
    → All IsText ds
    → joined cs ≡ joined ds
    → receive_all [] cs ≡ receive_all [] ds
receive_all_chunks cs ds hc hd e =
    receive_all-split [] cs (unfold split in refl) hc
    ∙ ap split e
    ∙ sym (receive_all-split [] ds (unfold split in refl) hd)

split-send_lines : (ls : List Bytes) → All (Lacks newline) ls → split (send_lines ls) ≡ (ls, [])
split-send_lines [] h = unfold split in refl
split-send_lines (l ∷ ls) h =
    split-cut-some _ l (send_lines ls) (cut_at_sep newline l (send_lines ls) h.0)
    ∙ rw (split-send_lines ls h.1)

-- Lines that are sent one after another arrive whole and in order, with nothing left, however
-- the connection cuts the bytes; no line holds a newline, and no chunk a NUL byte.
pub receive_all-send_lines :
    (ls cs : List Bytes)
    → All (Lacks newline) ls
    → All IsText cs
    → joined cs ≡ send_lines ls
    → receive_all [] cs ≡ (ls, [])
receive_all-send_lines ls cs hl hc e =
    receive_all-split [] cs (unfold split in refl) hc ∙ ap split e ∙ split-send_lines ls hl
