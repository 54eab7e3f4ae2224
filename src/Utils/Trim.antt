-- ===== src/Utils/Trim.antt =====
-- src/common.cpp, trim: what is cut off and what stays.
use smallchat.Base.{◌≡◌, refl, ap, ◌∙◌, sym, true, [], ◌∷◌, ◌++◌, Bytes, arith, if◌then◌else◌}
use smallchat.Utils.{trim, drop_blanks, drop_end_blanks, all_blank, is_blank}

-- What drop_blanks takes away.
unfoldable pub blanks : Bytes → Bytes
blanks [] = []
blanks (c ∷ s) = if is_blank c then c ∷ blanks s else []

unfoldable pub end_blanks : Bytes → Bytes
unfolding all_blank
end_blanks [] = []
end_blanks (c ∷ s) = if all_blank (c ∷ s) then c ∷ s else end_blanks s

blanks_split : (s : Bytes) → (blanks s ++ drop_blanks s ≡ s) × (all_blank (blanks s) ≡ true)
unfolding blanks drop_blanks all_blank
blanks_split [] = (refl, refl)
blanks_split (c ∷ s) = grind (arith, blanks_split s)

end_blanks_split :
    (s : Bytes) → (drop_end_blanks s ++ end_blanks s ≡ s) × (all_blank (end_blanks s) ≡ true)
unfolding end_blanks drop_end_blanks all_blank
end_blanks_split [] = (refl, refl)
end_blanks_split (c ∷ s) = grind (arith, end_blanks_split s)

-- A text is what trim leaves of it, with nothing but blanks in front and behind.
pub trim_split :
    (s : Bytes)
    → (front : Bytes) × ((back : Bytes) × ((s ≡ front ++ (trim s ++ back))
          × ((all_blank front ≡ true) × (all_blank back ≡ true))))
unfolding trim
trim_split s = (
  blanks s,
  (
    end_blanks (drop_blanks s),
    (
      sym (ap (λ t. blanks s ++ t) (end_blanks_split (drop_blanks s)).0 ∙ (blanks_split s).0),
      ((blanks_split s).1, (end_blanks_split (drop_blanks s)).1),
    ),
  ),
)

drop_blanks-ends :
    (s : Bytes) → drop_blanks (drop_end_blanks (drop_blanks s)) ≡ drop_end_blanks (drop_blanks s)
unfolding drop_blanks drop_end_blanks all_blank
drop_blanks-ends [] = refl
drop_blanks-ends (c ∷ s) = ground (arith, drop_blanks-ends s)

all_blank-ends : (s : Bytes) → all_blank (drop_end_blanks s) ≡ all_blank s
unfolding drop_end_blanks all_blank
all_blank-ends [] = refl
all_blank-ends (c ∷ s) = ground (arith, all_blank-ends s)

drop_end_blanks_idempotent : (s : Bytes) → drop_end_blanks (drop_end_blanks s) ≡ drop_end_blanks s
unfolding drop_end_blanks all_blank
drop_end_blanks_idempotent [] = refl
drop_end_blanks_idempotent (c ∷ s) = ground (arith, drop_end_blanks_idempotent s, all_blank-ends s)

pub trim_idempotent : (s : Bytes) → trim (trim s) ≡ trim s
unfolding trim
trim_idempotent s = rw (drop_blanks-ends s) (drop_end_blanks_idempotent (drop_blanks s))
