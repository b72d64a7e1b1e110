-- ===== src/Prelude/Best.antt =====
-- `std::max_element` by a comparison, and loops that keep the best item so far.
use linyaps.Prelude.Lists.{All, any, Mem-All}
use linyaps.Prelude.Tests.{if◌then◌else◌, Bool-cases}
use mathlib.Core.Path.{◌≡◌, refl, sym, ap, subst}
use mathlib.Core.Logic.{inl, inr}
use mathlib.Core.Bool.{Bool, true, false, ◌||◌}
use mathlib.Core.List.{List, [], ◌∷◌}
use mathlib.Core.List.Memᴰ.{Memᴰ}
use native.Mathlib.Omega.{arith}

module _ {ℓ} {A : Type ℓ} (before : A → A → Bool) where
  abbrev pub best_from : A → List A → A
  best_from best [] = best
  best_from best (x ∷ xs) = best_from (if before x best then x else best) xs

  -- One of the items, and none comes before it.
  abbrev pub IsBest : A → List A → Type ℓ
  IsBest best xs = Memᴰ best xs × (any (λ x. before x best) xs ≡ false)

  module _ {κ} (P : A → Type κ)
      (asym : (a b : A) → P a → P b → before a b ≡ true → before b a ≡ false)
      (not_trans : (a b c : A)
        → P a
        → P b
        → P c
        → before b a ≡ false
        → before c b ≡ false
        → before c a ≡ false) where
    or-false : (p q : Bool) → (p || q) ≡ false → (p ≡ false) × (q ≡ false)
    or-false p q h = ground arith

    false-or : (p q r : Bool) → p ≡ false → q ≡ false → r ≡ false → (p || (q || r)) ≡ false
    false-or p q r h k l = ground arith

    Mem-insert : (best b x : A) (xs : List A) → Memᴰ best (b ∷ xs) → Memᴰ best (b ∷ x ∷ xs)
    Mem-insert best b x xs (Memᴰ.head e) = Memᴰ.head e
    Mem-insert best b x xs (Memᴰ.tail i) = Memᴰ.tail (Memᴰ.tail i)

    IsBest-beaten :
        (m b x : A) (xs : List A)
        → P b
        → All P (x ∷ xs)
        → before x b ≡ true
        → IsBest m (x ∷ xs)
        → IsBest m (b ∷ x ∷ xs)
    IsBest-beaten m b x xs h ks e (i, a) =
        let (first, others) = or-false (before x m) (any (λ y. before y m) xs) a in
        let beaten = not_trans m x b (Mem-All P m (x ∷ xs) i ks) ks.0 h first (asym x b ks.0 h e) in
        (
          Memᴰ.tail i,
          false-or (before b m) (before x m) (any (λ y. before y m) xs) beaten first others,
        )

    IsBest-kept :
        (m b x : A) (xs : List A)
        → P x
        → All P (b ∷ xs)
        → before x b ≡ false
        → IsBest m (b ∷ xs)
        → IsBest m (b ∷ x ∷ xs)
    IsBest-kept m b x xs k hs e (i, a) =
        let (first, others) = or-false (before b m) (any (λ y. before y m) xs) a in
        let beaten = not_trans m b x (Mem-All P m (b ∷ xs) i hs) hs.0 k first e in
        (
          Mem-insert m b x xs i,
          false-or (before b m) (before x m) (any (λ y. before y m) xs) first beaten others,
        )

    irreflexive : (b : A) → P b → before b b ≡ false
    irreflexive b h = elim (Bool-cases (before b b)) [ inl e ↦ asym b b h h e | inr e ↦ e ]

    pub best_from-IsBest : (b : A) (xs : List A) → P b → All P xs → IsBest (best_from b xs) (b ∷ xs)
    best_from-IsBest b [] h hs = (Memᴰ.head refl, rw (irreflexive b h) refl)
    best_from-IsBest b (x ∷ xs) h ks =
        let best_if : Bool → A = λ c. best_from (if c then x else b) xs in
        elim (Bool-cases (before x b)) [
          | inl e ↦
              subst (λ m. IsBest m (b ∷ x ∷ xs)) (sym (ap best_if e))
                (IsBest-beaten (best_from x xs) b x xs h ks e (best_from-IsBest x xs ks.0 ks.1))
          | inr e ↦
              subst (λ m. IsBest m (b ∷ x ∷ xs)) (sym (ap best_if e))
                (IsBest-kept (best_from b xs) b x xs ks.0 (h, ks.1) e
                  (best_from-IsBest b xs h ks.1))
        ]
