-- ===== src/Utils/Strings/Replace.antt =====
-- libs/utils/src/linglong/utils/strings.h: what `replaceSubstring` leaves alone.
use linyaps.Prelude.{
  ℕ, zero, suc, ◌-◌, ◌≡◌, refl, ap, ap₂, ◌∙◌, true, false, [], ◌∷◌, ◌++◌, Text, drop, length, arith,
  Bool-cases, inl, inr, ==_iff,
}
use linyaps.Utils.Strings.{starts_with, replace_from, replace_substring, contains}

module _ (from to : Text) where
  replace_from-absent : (str : Text) → contains str from ≡ false → replace_from from to 0 str ≡ str
  unfolding replace_from contains
  replace_from-absent [] h = refl
  replace_from-absent (c ∷ cs) h = elim (Bool-cases (starts_with from (c ∷ cs))) [
    | inl e ↦ ground (arith, e, h)
    | inr e ↦ rw e (ap (λ t. c ∷ t) (replace_from-absent cs (ground (arith, e, h))))
  ]

drop-prefix :
    (prefix str : Text) → starts_with prefix str ≡ true → prefix ++ drop (length prefix) str ≡ str
drop-prefix [] str h = refl
drop-prefix (p ∷ ps) [] h = cc
drop-prefix (p ∷ ps) (c ∷ cs) h =
    ap₂ (λ x t. x ∷ t) ((==_iff p c).0 (ground (arith, h))) (drop-prefix ps cs (ground (arith, h)))

-- A text with its own occurrences put in their place, after the units of a match are passed over.
replace_from-drop :
    (f : ℕ) (fs : Text) (skip : ℕ) (str : Text)
    → replace_from (f ∷ fs) (f ∷ fs) skip str ≡ drop skip str
unfolding replace_from
replace_from-drop f fs zero [] = refl
replace_from-drop f fs (suc skip) [] = refl
replace_from-drop f fs (suc skip) (c ∷ cs) = replace_from-drop f fs skip cs
replace_from-drop f fs zero (c ∷ cs) = elim (Bool-cases (starts_with (f ∷ fs) (c ∷ cs))) [
  | inl e ↦
      let same : suc (length fs) - 1 ≡ length fs = omega arith in
      rw e (
        ap (λ n. f ∷ (fs ++ replace_from (f ∷ fs) (f ∷ fs) n cs)) same
        ∙ ap (λ t. f ∷ (fs ++ t)) (replace_from-drop f fs (length fs) cs)
        ∙ drop-prefix (f ∷ fs) (c ∷ cs) e)
  | inr e ↦ rw e (ap (λ t. c ∷ t) (replace_from-drop f fs zero cs))
]

-- `replaceSubstring` leaves a text as it is, in which what is to be replaced does not occur; and any
-- text, where the replacement is what is to be replaced.
pub replace_substring-same :
    (str from to : Text)
    → ((contains str from ≡ false) → replace_substring str from to ≡ str)
      × (replace_substring str from from ≡ str)
unfolding replace_substring
replace_substring-same str [] to = (λ h. refl, refl)
replace_substring-same str (f ∷ fs) to =
    (replace_from-absent (f ∷ fs) to str, replace_from-drop f fs zero str)
