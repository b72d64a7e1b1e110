-- ===== src/Prelude/Sort.antt =====
-- `std::sort` by a comparison, as an insertion that keeps the order of equal items.
use linyaps.Prelude.Lists.{All, any, keep_if, length}
use linyaps.Prelude.Tests.{if◌then◌else◌, Bool-cases, ◌==◌}
use Prim.Native.Nat.{ℕ}
use mathlib.Core.Path.{◌≡◌, refl}
use mathlib.Core.Logic.{inl, inr}
use mathlib.Core.Bool.{Bool, true, false, not}
use mathlib.Core.List.{List, [], ◌∷◌}
use native.Mathlib.Omega.{arith}

-- How many items pass a test.
abbrev pub count_if {ℓ} : {A : Type ℓ} → (A → Bool) → List A → ℕ
count_if p xs = length (keep_if p xs)

pub any-count_if {ℓ} :
    {A : Type ℓ} (p : A → Bool) (xs : List A) → any p xs ≡ not (count_if p xs == 0)
any-count_if p [] = refl
any-count_if p (x ∷ xs) = ground (arith, any-count_if p xs)

module _ {ℓ} {A : Type ℓ} (before : A → A → Bool) where
  unfoldable pub insert : A → List A → List A
  insert x [] = x ∷ []
  insert x (y ∷ ys) = let later = insert x ys in if before x y then x ∷ y ∷ ys else y ∷ later

  unfoldable pub sort : List A → List A
  unfolding insert
  sort [] = []
  sort (x ∷ xs) = insert x (sort xs)

  -- No item comes before an earlier one.
  abbrev pub IsSorted : List A → Type 0
  IsSorted [] = Unit
  IsSorted (x ∷ xs) = All (λ y. before y x ≡ false) xs × IsSorted xs

  count-insert :
      (p : A → Bool) (x : A) (ys : List A) → count_if p (insert x ys) ≡ count_if p (x ∷ ys)
  unfolding insert
  count-insert p x [] = refl
  count-insert p x (y ∷ ys) = ground (arith, count-insert p x ys)

  pub count-sort : (p : A → Bool) (xs : List A) → count_if p (sort xs) ≡ count_if p xs
  unfolding sort
  count-sort p [] = refl
  count-sort p (x ∷ xs) = ground (arith, count-insert p x (sort xs), count-sort p xs)

  All-insert {κ} : (P : A → Type κ) (x : A) (ys : List A) → P x → All P ys → All P (insert x ys)
  unfolding insert
  All-insert P x [] h hs = (h, tt)
  All-insert P x (y ∷ ys) h hs = elim (Bool-cases (before x y)) [
    | inl e ↦ rw e (h, hs)
    | inr e ↦ rw e (hs.0, All-insert P x ys h hs.1)
  ]

  pub All-sort {κ} : (P : A → Type κ) (xs : List A) → All P xs → All P (sort xs)
  unfolding sort
  All-sort P [] hs = tt
  All-sort P (x ∷ xs) hs = All-insert P x (sort xs) hs.0 (All-sort P xs hs.1)

  module _ {κ} (P : A → Type κ)
      (asym : (a b : A) → P a → P b → before a b ≡ true → before b a ≡ false)
      (not_trans : (a b c : A)
        → P a
        → P b
        → P c
        → before b a ≡ false
        → before c b ≡ false
        → before c a ≡ false) where
    later-All :
        (x y : A) (ys : List A)
        → P x
        → P y
        → All P ys
        → before y x ≡ false
        → All (λ z. before z y ≡ false) ys
        → All (λ z. before z x ≡ false) ys
    later-All x y [] h k hs e s = tt
    later-All x y (z ∷ zs) h k hs e s =
        (not_trans x y z h k hs.0 e s.0, later-All x y zs h k hs.1 e s.1)

    insert-IsSorted : (x : A) (ys : List A) → P x → All P ys → IsSorted ys → IsSorted (insert x ys)
    unfolding insert
    insert-IsSorted x [] h hs s = (tt, tt)
    insert-IsSorted x (y ∷ ys) h hs s = elim (Bool-cases (before x y)) [
      | inl e ↦ let f = asym x y h hs.0 e in rw e ((f, later-All x y ys h hs.0 hs.1 f s.0), s)
      | inr e ↦
          rw e (All-insert (λ z. before z y ≡ false) x ys e s.0, insert-IsSorted x ys h hs.1 s.1)
    ]

    pub sort-IsSorted : (xs : List A) → All P xs → IsSorted (sort xs)
    unfolding sort
    sort-IsSorted [] hs = tt
    sort-IsSorted (x ∷ xs) hs =
        insert-IsSorted x (sort xs) hs.0 (All-sort P xs hs.1) (sort-IsSorted xs hs.1)
