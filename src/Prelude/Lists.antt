-- ===== src/Prelude/Lists.antt =====
-- Lists measured and indexed by native numbers, and predicates on all items.
use Prim.Native.Nat.{ℕ, zero, suc, ◌+◌}
use mathlib.Core.Path.{◌≡◌, refl, sym, ap, ◌∙◌, subst}
use mathlib.Core.Logic.{inl, inr}
use mathlib.Core.Bool.{Bool, true, false, ◌&&◌, ◌||◌}
use mathlib.Core.List.{List, [], ◌∷◌, ◌++◌, Memᴰ}
use mathlib.Core.Option.{Option, none, some}
use native.Mathlib.Omega.{arith}
use linyaps.Prelude.Tests.{if◌then◌else◌, Bool-cases}

module _ {ℓ} {A : Type ℓ} where
  abbrev pub length : List A → ℕ
  length [] = 0
  length (x ∷ xs) = suc (length xs)

  abbrev pub get_elem? : List A → ℕ → Option A
  get_elem? [] i = none
  get_elem? (x ∷ xs) zero = some x
  get_elem? (x ∷ xs) (suc i) = get_elem? xs i

  abbrev pub take : ℕ → List A → List A
  take zero xs = []
  take (suc n) [] = []
  take (suc n) (x ∷ xs) = x ∷ take n xs

  abbrev pub drop : ℕ → List A → List A
  drop zero xs = xs
  drop (suc n) [] = []
  drop (suc n) (x ∷ xs) = drop n xs

  abbrev pub is_empty : List A → Bool
  is_empty [] = true
  is_empty (x ∷ xs) = false

  -- The items that a test keeps, in order.
  abbrev pub keep_if : (A → Bool) → List A → List A
  keep_if p [] = []
  keep_if p (x ∷ xs) = let rest = keep_if p xs in if p x then x ∷ rest else rest

  abbrev pub any : (A → Bool) → List A → Bool
  any p [] = false
  any p (x ∷ xs) = p x || any p xs

  abbrev pub all : (A → Bool) → List A → Bool
  all p [] = true
  all p (x ∷ xs) = p x && all p xs

  abbrev pub All {κ} : (A → Type κ) → List A → Type κ
  All P [] = Unit
  All P (x ∷ xs) = P x × All P xs

  pub length-append : (xs ys : List A) → length (xs ++ ys) ≡ length xs + length ys
  length-append [] ys = omega arith
  length-append (x ∷ xs) ys = omega (arith, length-append xs ys)

  pub drop-append : (xs ys : List A) → drop (length xs) (xs ++ ys) ≡ ys
  drop-append [] ys = refl
  drop-append (x ∷ xs) ys = drop-append xs ys

  pub take-append : (xs ys : List A) → take (length xs) (xs ++ ys) ≡ xs
  take-append [] ys = refl
  take-append (x ∷ xs) ys = ap (λ l. x ∷ l) (take-append xs ys)

  pub Mem-All {κ} : (P : A → Type κ) (x : A) (xs : List A) → Memᴰ x xs → All P xs → P x
  Mem-All P x [] m hs = elim m [ ]
  Mem-All P x (y ∷ ys) (Memᴰ.head e) hs = subst P (sym e) hs.0
  Mem-All P x (y ∷ ys) (Memᴰ.tail m) hs = Mem-All P x ys m hs.1

  pub All-map {κ μ} :
      (P : A → Type κ) (Q : A → Type μ)
      → ((x : A) → P x → Q x)
      → (xs : List A) → All P xs
      → All Q xs
  All-map P Q h [] hs = tt
  All-map P Q h (x ∷ xs) hs = (h x hs.0, All-map P Q h xs hs.1)

  -- The items kept are of the list, and pass the test.
  pub keep_if-All :
      (p : A → Bool) (xs : List A) → All (λ x. Memᴰ x xs × (p x ≡ true)) (keep_if p xs)
  keep_if-All p [] = tt
  keep_if-All p (x ∷ xs) =
      let rest =
        All-map (λ y. Memᴰ y xs × (p y ≡ true)) (λ y. Memᴰ y (x ∷ xs) × (p y ≡ true))
          (λ y h. (Memᴰ.tail h.0, h.1)) (keep_if p xs) (keep_if-All p xs) in
      elim (Bool-cases (p x)) [ inl e ↦ rw e ((Memᴰ.head refl, e), rest) | inr e ↦ rw e rest ]

  -- A test that no item passes.
  pub any-Mem : (p : A → Bool) (x : A) (xs : List A) → any p xs ≡ false → Memᴰ x xs → p x ≡ false
  any-Mem p x [] h m = elim m [ ]
  any-Mem p x (y ∷ ys) h (Memᴰ.head e) = ap p e ∙ ground (arith, h)
  any-Mem p x (y ∷ ys) h (Memᴰ.tail m) = any-Mem p x ys (ground (arith, h)) m
