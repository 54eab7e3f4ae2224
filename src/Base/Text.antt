-- ===== src/Base/Text.antt =====
-- Texts as lists of bytes: std::string where the program walks, cuts or compares it.
use Prim.Native.Nat.{ℕ}
use Prim.Native.Char.{code}
use Prim.Native.String.{String}
use mathlib.Core.Path.{◌≡◌, refl}
use mathlib.Core.Logic.{◌≢◌, ◌↔◌}
use mathlib.Core.Bool.{Bool, true, false, ◌&&◌}
use mathlib.Core.List.{List, [], ◌∷◌, ◌++◌}
use mathlib.Core.Option.{Option, none, some}
use native.Mathlib.Omega.{arith}
use smallchat.Base.Tests.{eqb, Eq, if◌then◌else◌}
use smallchat.Base.Lists.{All}

abbrev pub Bytes : Type 0
Bytes = List ℕ

-- The code points of a literal; these are its bytes when the text is ASCII.
abbrev pub codes : String → Bytes
codes String.[] = []
codes (String.◌∷◌ c s) = code c ∷ codes s

-- operator==
abbrev pub equal : Bytes → Bytes → Bool
equal [] [] = true
equal [] (y ∷ b) = false
equal (x ∷ a) [] = false
equal (x ∷ a) (y ∷ b) = eqb x y && equal a b

pub equal_iff : (a b : Bytes) → (equal a b ≡ true) ↔ (a ≡ b)
equal_iff [] [] = ground arith
equal_iff [] (y ∷ b) = ground arith
equal_iff (x ∷ a) [] = ground arith
equal_iff (x ∷ a) (y ∷ b) = ground (arith, equal_iff a b)

instance abbrev pub bytes_eq : Eq Bytes
bytes_eq = record { beq = equal; beq_iff = equal_iff }

-- empty()
abbrev pub is_empty {ℓ} : {A : Type ℓ} → List A → Bool
is_empty [] = true
is_empty (x ∷ xs) = false

-- `end = s.find(sep, pos); if (end == npos) fail; f = s.substr(pos, end - pos); pos = end + 1`,
-- with the text from `pos` on in place of `pos`: the field, and the text behind the separator.
unfoldable pub cut : ℕ → Bytes → Option (Bytes × Bytes)
cut sep [] = none
cut sep (c ∷ s) =
    let rest = cut sep s in
    if eqb c sep then some ([], s) else elim rest [ none ↦ none | some (f, r) ↦ some (c ∷ f, r) ]

-- A text that does not hold a byte.
abbrev pub Lacks : ℕ → Bytes → Type 0
Lacks b = All (λ c. c ≢ b)

pub cut_at_sep : (sep : ℕ) (f r : Bytes) → Lacks sep f → cut sep (f ++ (sep ∷ r)) ≡ some (f, r)
unfolding cut
cut_at_sep sep [] r h = ground arith
cut_at_sep sep (c ∷ f) r h = ground (arith, cut_at_sep sep f r h.1)

pub cut-Lacks : (sep : ℕ) (s : Bytes) → Lacks sep s → cut sep s ≡ none
unfolding cut
cut-Lacks sep [] h = refl
cut-Lacks sep (c ∷ s) h = ground (arith, cut-Lacks sep s h.1)
