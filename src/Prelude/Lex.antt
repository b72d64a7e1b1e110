-- ===== src/Prelude/Lex.antt =====
-- The lexicographic order on sequences of numbers: `std::tie(..) < std::tie(..)`, and the order of
-- texts by their units.
use Prim.Native.Nat.{ℕ}
use mathlib.Core.Path.{◌≡◌, refl, subst}
use mathlib.Core.Logic.{inl, inr}
use mathlib.Core.Bool.{Bool, true, false, ◌&&◌, ◌||◌}
use mathlib.Core.List.{List, [], ◌∷◌}
use native.Mathlib.Omega.{arith}
use linyaps.Prelude.Tests.{ltb, ◌==◌, Bool-cases}

unfoldable pub lex_lt : List ℕ → List ℕ → Bool
lex_lt [] [] = false
lex_lt [] (y ∷ ys) = true
lex_lt (x ∷ xs) [] = false
lex_lt (x ∷ xs) (y ∷ ys) = ltb x y || (x == y && lex_lt xs ys)

pub lex_lt_irrefl : (xs : List ℕ) → lex_lt xs xs ≡ false
unfolding lex_lt
lex_lt_irrefl [] = refl
lex_lt_irrefl (x ∷ xs) = ground (arith, lex_lt_irrefl xs)

pub lex_lt_trans :
    (xs ys zs : List ℕ) → lex_lt xs ys ≡ true → lex_lt ys zs ≡ true → lex_lt xs zs ≡ true
unfolding lex_lt
lex_lt_trans [] [] zs h k = k
lex_lt_trans [] (y ∷ ys) [] h k = k
lex_lt_trans [] (y ∷ ys) (z ∷ zs) h k = refl
lex_lt_trans (x ∷ xs) [] zs h k = cc
lex_lt_trans (x ∷ xs) (y ∷ ys) [] h k = k
lex_lt_trans (x ∷ xs) (y ∷ ys) (z ∷ zs) h k = ground (arith, lex_lt_trans xs ys zs)

pub lex_lt-total : (xs ys : List ℕ) → lex_lt xs ys ≡ false → lex_lt ys xs ≡ false → xs ≡ ys
unfolding lex_lt
lex_lt-total [] [] h k = refl
lex_lt-total [] (y ∷ ys) h k = cc
lex_lt-total (x ∷ xs) [] h k = cc
lex_lt-total (x ∷ xs) (y ∷ ys) h k = ground (arith, lex_lt-total xs ys)

pub lex_lt-asym : (xs ys : List ℕ) → lex_lt xs ys ≡ true → lex_lt ys xs ≡ false
lex_lt-asym xs ys h = ground (arith, lex_lt_trans xs ys xs h, lex_lt_irrefl xs)

-- A sequence that is not above one below a third is below the third, and so at the other end.
pub lex_le-lt_trans :
    (xs ys zs : List ℕ) → lex_lt ys xs ≡ false → lex_lt ys zs ≡ true → lex_lt xs zs ≡ true
lex_le-lt_trans xs ys zs h k = elim (Bool-cases (lex_lt xs ys)) [
  | inl e ↦ lex_lt_trans xs ys zs e k
  | inr e ↦ subst (λ t. lex_lt t zs ≡ true) (lex_lt-total ys xs h e) k
]

pub lex_lt-le_trans :
    (xs ys zs : List ℕ) → lex_lt xs ys ≡ true → lex_lt zs ys ≡ false → lex_lt xs zs ≡ true
lex_lt-le_trans xs ys zs h k = elim (Bool-cases (lex_lt ys zs)) [
  | inl e ↦ lex_lt_trans xs ys zs h e
  | inr e ↦ subst (λ t. lex_lt xs t ≡ true) (lex_lt-total ys zs e k) h
]

pub lex_le_trans :
    (xs ys zs : List ℕ) → lex_lt ys xs ≡ false → lex_lt zs ys ≡ false → lex_lt zs xs ≡ false
lex_le_trans xs ys zs h k = ground (arith, lex_le-lt_trans ys zs xs k, lex_lt-asym xs ys)
