-- ===== src/Base/Dict.antt =====
-- std::unordered_map as an association list: the order of the list is the order of iteration,
-- which the standard leaves open, and a new key goes to the end.
use mathlib.Core.Path.{◌≡◌, refl}
use mathlib.Core.List.{List, [], ◌∷◌}
use mathlib.Core.Option.{Option, none, some}
use native.Mathlib.Omega.{arith}
use smallchat.Base.Tests.{Eq, ◌==◌, if◌then◌else◌}

module _ {ℓ κ} {K : Type ℓ} {V : Type κ} ⦃e : Eq K⦄ where
  -- find
  unfoldable pub lookup : K → List (K × V) → Option V
  lookup k [] = none
  lookup k ((j, v) ∷ m) = if j == k then some v else lookup k m

  -- m[k] = v
  unfoldable pub insert : K → V → List (K × V) → List (K × V)
  insert k v [] = (k, v) ∷ []
  insert k v ((j, w) ∷ m) = if j == k then (k, v) ∷ m else (j, w) ∷ insert k v m

  -- erase(k)
  unfoldable pub erase : K → List (K × V) → List (K × V)
  erase k [] = []
  erase k ((j, w) ∷ m) = if j == k then erase k m else (j, w) ∷ erase k m

  pub lookup-insert :
      (put get : K) (v : V) (m : List (K × V))
      → lookup get (insert put v m) ≡ (if put == get then some v else lookup get m)
  unfolding lookup insert
  lookup-insert put get v [] = refl
  lookup-insert put get v ((i, w) ∷ m) =
      ground (arith, e.beq_iff put get, e.beq_iff i put, e.beq_iff i get, lookup-insert put get v m)

  pub lookup-erase :
      (gone get : K) (m : List (K × V))
      → lookup get (erase gone m) ≡ (if gone == get then none else lookup get m)
  unfolding lookup erase
  lookup-erase gone get [] = ground arith
  lookup-erase gone get ((i, w) ∷ m) =
      ground (arith, e.beq_iff gone get, e.beq_iff i gone, e.beq_iff i get, lookup-erase gone get m)
