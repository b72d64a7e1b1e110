-- ===== src/Package/FallbackVersion/Compare.antt =====
-- The order of `FallbackVersion`s.
use linyaps.Prelude.{
  ℕ, zero, suc, ◌<◌, ◌≤◌, ltb, ◌==◌, ◌≡◌, refl, ◌∙◌, true, false, ◌||◌, ◌&&◌, none, some, List, [],
  ◌∷◌, Text, text_eq, arith, ℤ, pos, negsuc, is_negative, is_positive, lex_lt, length, ◌++◌, ◌-ℤ◌,
  int_eq, int_lt, int_eq_refl, pos_part, neg_part, wrap_int, ap, Option-cases, inl, inr,
  text_eq_refl, length-append,
}
use linyaps.Qt.{Qt, CompareLaws}
use linyaps.Package.FallbackVersion.{
  FallbackVersion, compare_numbers, compare_parts, compare_loop, or_else, part_at, max_length, lt,
  gt,
}

-- The part is read as a number that is not negative.
abbrev pub Reads : Qt → Text → ℕ → Type 0
Reads qt p n = (qt.to_int p ≡ some (pos n)) × (n < 2147483648)

-- The parts are read as these numbers.
abbrev pub Numbers : Qt → List Text → List ℕ → Type 0
Numbers qt [] [] = Unit
Numbers qt [] (n ∷ ns) = ⊥
Numbers qt (p ∷ ps) [] = ⊥
Numbers qt (p ∷ ps) (n ∷ ns) = Reads qt p n × Numbers qt ps ns

abbrev tl : List Text → List Text
tl [] = []
tl (p ∷ ps) = ps

part_at-suc : (xs : List Text) (i : ℕ) → part_at xs (suc i) ≡ part_at (tl xs) i
part_at-suc [] i = refl
part_at-suc (x ∷ xs) i = refl

compare_loop-suc :
    (qt : Qt) (n i : ℕ) (xs ys : List Text)
    → compare_loop qt n (suc i) xs ys ≡ compare_loop qt n i (tl xs) (tl ys)
unfolding compare_loop
compare_loop-suc qt zero i xs ys = refl
compare_loop-suc qt (suc n) i xs ys =
    rw (part_at-suc xs i, part_at-suc ys i, compare_loop-suc qt n (suc i) xs ys)

module _ (qt : Qt) (laws : CompareLaws qt) where
  compare_parts-empty : compare_parts qt [] [] ≡ none
  unfolding compare_parts text_eq
  compare_parts-empty = rw laws.to_int-empty

  compare_loop-empty : (n i : ℕ) → compare_loop qt n i [] [] ≡ pos 0
  unfolding compare_loop
  compare_loop-empty zero i = refl
  compare_loop-empty (suc n) i = rw compare_parts-empty (compare_loop-empty n (suc i))

  -- Nothing against a number, a number against nothing, and two numbers.
  compare_parts-first :
      (q : Text) (n : ℕ)
      → Reads qt q n
      → (r : ℤ) × (compare_parts qt [] q ≡ some r) × (is_negative r ≡ true)
  unfolding compare_parts text_eq
  compare_parts-first [] n h = absurd (cc (laws.to_int-empty, h.0))
  compare_parts-first (c ∷ q) n h =
      (qt.compare [] (c ∷ q), rw laws.to_int-empty, laws.compare-empty (c ∷ q) refl)

  compare_parts-second :
      (p : Text) (n : ℕ)
      → Reads qt p n
      → (r : ℤ) × (compare_parts qt p [] ≡ some r) × (is_negative r ≡ false)
  unfolding compare_parts text_eq
  compare_parts-second [] n h = absurd (cc (laws.to_int-empty, h.0))
  compare_parts-second (c ∷ p) n h = (
    qt.compare (c ∷ p) [],
    rw (h.0, laws.to_int-empty),
    ground (arith, laws.compare-swap [] (c ∷ p), laws.compare-empty (c ∷ p) refl),
  )

  compare_parts-numbers :
      (p q : Text) (m n : ℕ)
      → Reads qt p m
      → Reads qt q n
      → compare_parts qt p q ≡ compare_numbers (pos m) (pos n)
  unfolding compare_parts
  compare_parts-numbers p q m n h k = rw (h.0, k.0)

  -- The order of the numbers, whatever goes on when they are equal.
  compare_numbers-then :
      (m n : ℕ) (rest : ℤ)
      → m < 2147483648
      → n < 2147483648
      → is_negative (or_else (compare_numbers (pos m) (pos n)) rest)
        ≡ (ltb m n || (m == n && is_negative rest))
  unfolding compare_numbers
  compare_numbers-then m n rest h k = ground arith

  -- With enough rounds the sign of the loop's result is the order of the two lists of numbers.
  compare_loop-lex :
      (n : ℕ) (xs ys : List Text) (ms ns : List ℕ)
      → max_length xs ys ≤ n
      → Numbers qt xs ms
      → Numbers qt ys ns
      → is_negative (compare_loop qt n 0 xs ys) ≡ lex_lt ms ns
  unfolding compare_loop lex_lt
  compare_loop-lex n [] [] [] [] h k l = rw (compare_loop-empty n 0)
  compare_loop-lex zero [] (y ∷ ys) ms ns h k l = absurd (ground arith)
  compare_loop-lex zero (x ∷ xs) [] ms ns h k l = absurd (ground arith)
  compare_loop-lex zero (x ∷ xs) (y ∷ ys) ms ns h k l = absurd (ground arith)
  compare_loop-lex (suc n) [] (y ∷ ys) [] (b ∷ ns) h k l =
      let (r, e, s) = compare_parts-first y b l.0 in rw e s
  compare_loop-lex (suc n) (x ∷ xs) [] (a ∷ ms) [] h k l =
      let (r, e, s) = compare_parts-second x a k.0 in rw e s
  compare_loop-lex (suc n) (x ∷ xs) (y ∷ ys) (a ∷ ms) (b ∷ ns) h k l =
      rw (compare_parts-numbers x y a b k.0 l.0) (
        rw (compare_loop-suc qt n 0 (x ∷ xs) (y ∷ ys)) (
          compare_numbers-then a b (compare_loop qt n 0 xs ys) k.0.1 l.0.1
          ∙ rw (compare_loop-lex n xs ys ms ns (ground arith) k.1 l.1)))
  compare_loop-lex n [] ys (a ∷ ms) ns h k l = absurd k
  compare_loop-lex n (x ∷ xs) ys [] ns h k l = absurd k
  compare_loop-lex n xs [] ms (b ∷ ns) h k l = absurd l
  compare_loop-lex n xs (y ∷ ys) ms [] h k l = absurd l

  -- `FallbackVersion`s whose parts are all read as numbers that are not negative are ordered by `operator<` as
  -- the sequences of those numbers are.
  pub lt-lex :
      (v w : FallbackVersion) (ms ns : List ℕ)
      → Numbers qt v.list ms
      → Numbers qt w.list ns
      → lt qt v w ≡ lex_lt ms ns
  unfolding lt
  lt-lex v w ms ns h k =
      compare_loop-lex (max_length v.list w.list) v.list w.list ms ns (omega arith) h k

abbrev pub single : Text → FallbackVersion
single p = record { list = p ∷ [] }

-- The comparison of versions of one part each.
lt-single :
    (qt : Qt) (s t : Text) (r : ℤ)
    → compare_parts qt s t ≡ some r
    → lt qt (single s) (single t) ≡ is_negative r
unfolding lt compare_loop
lt-single qt s t r h = rw h

-- `operator<` of `FallbackVersion` is not transitive: if two parts are read as numbers, the first below the second, and a
-- third part is no number and stands between the second and the first as texts do, then each of the
-- versions of these single parts is below the next, round in a circle.
pub lt-circle :
    (qt : Qt) (s t u : Text) (m n : ℕ)
    → Reads qt s m
    → Reads qt t n
    → m < n
    → qt.to_int u ≡ none
    → text_eq t u ≡ false
    → text_eq u s ≡ false
    → is_negative (qt.compare t u) ≡ true
    → is_negative (qt.compare u s) ≡ true
    → (lt qt (single s) (single t) ≡ true)
      × (lt qt (single t) (single u) ≡ true)
      × (lt qt (single u) (single s) ≡ true)
unfolding lt compare_loop compare_parts
lt-circle qt s t u m n hs ht less hu e1 e2 c1 c2 = ground arith

positive-int_lt : (a b : ℤ) → is_positive (a -ℤ b) ≡ int_lt b a
positive-int_lt a b = ground arith

compare_parts-same : (qt : Qt) (p : Text) → compare_parts qt p p ≡ none
unfolding compare_parts compare_numbers
compare_parts-same qt p = elim (Option-cases (qt.to_int p)) [
  | inl e ↦ rw (e, text_eq_refl p) refl
  | inr (a, e) ↦ rw (e, int_eq_refl a) refl
]

-- The first part that differs gives the result of the loop.
compare_loop-first :
    (qt : Qt) (p q : Text) (r : ℤ) (n : ℕ) (front xs ys : List Text)
    → compare_parts qt p q ≡ some r
    → length front < n
    → compare_loop qt n 0 (front ++ p ∷ xs) (front ++ q ∷ ys) ≡ r
unfolding compare_loop
compare_loop-first qt p q r zero front xs ys h k = absurd (omega (arith, k))
compare_loop-first qt p q r (suc n) [] xs ys h k = rw h refl
compare_loop-first qt p q r (suc n) (c ∷ front) xs ys h k = rw (compare_parts-same qt c) (
    compare_loop-suc qt n 0 (c ∷ front ++ p ∷ xs) (c ∷ front ++ q ∷ ys)
    ∙ compare_loop-first qt p q r n front xs ys h (omega (arith, k)))

enough_rounds :
    (p q : Text) (front xs ys : List Text)
    → length front < max_length (front ++ p ∷ xs) (front ++ q ∷ ys)
enough_rounds p q front xs ys =
    ground (arith, length-append front (p ∷ xs), length-append front (q ∷ ys))

-- A difference that an `int` holds.
abbrev pub IsInt : ℤ → Type 0
IsInt z = (pos_part z < 2147483648) × (neg_part z ≤ 2147483648)

wrap_int-IsInt : (z : ℤ) → IsInt z → wrap_int z ≡ z
wrap_int-IsInt (pos n) h = ground (arith, h)
wrap_int-IsInt (negsuc n) h = ground (arith, h)

-- Two `FallbackVersion`s that have the same parts up to ones that are read as different numbers, of
-- either sign, are ordered by `operator<` and `operator>` as these numbers are, whatever parts follow,
-- if the difference of the two numbers is an `int`.
pub lt-first_number :
    (qt : Qt) (front xs ys : List Text) (p q : Text) (a b : ℤ)
    → qt.to_int p ≡ some a
    → qt.to_int q ≡ some b
    → int_eq a b ≡ false
    → IsInt (a -ℤ b)
    → (lt qt (record { list = front ++ p ∷ xs }) (record { list = front ++ q ∷ ys }) ≡ int_lt a b)
      × (gt qt (record { list = front ++ p ∷ xs }) (record { list = front ++ q ∷ ys }) ≡ int_lt b a)
unfolding lt gt compare_parts compare_numbers
lt-first_number qt front xs ys p q a b h k differs fits =
    let rounds = max_length (front ++ p ∷ xs) (front ++ q ∷ ys) in
    let decided : compare_parts qt p q ≡ some (a -ℤ b) =
      rw (h, k, differs) (ap some (wrap_int-IsInt (a -ℤ b) fits)) in
    let result =
      compare_loop-first qt p q (a -ℤ b) rounds front xs ys decided
        (enough_rounds p q front xs ys) in
    (ap is_negative result, ap is_positive result ∙ positive-int_lt a b)
