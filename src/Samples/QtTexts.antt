-- ===== src/Samples/QtTexts.antt =====
-- Functions with the documented behaviour of Qt's, on numbers in their shortest form.
use linyaps.Prelude.{
  ℕ, zero, suc, ◌+◌, ◌-◌, ◌*◌, ◌/◌, ◌%◌, ◌^◌, ◌<◌, ◌≤◌, ◌≡◌, refl, sym, ◌∙◌, ap, subst, true, false,
  ◌&&◌, Option, none, some, [], ◌∷◌, ◌++◌, Text, text_eq, text_eq_refl, text_eq→eq, all, is_digit,
  is_empty, ltb, ◌==◌, if◌then◌else◌, ℤ, pos, negsuc, is_negative, is_zero, lex_lt, lex_lt_irrefl,
  lex_lt-total, lex_lt-asym, arith, Bool-cases, inl, inr,
}
use linyaps.Prelude.Maybe.{some-injective}
use linyaps.Utils.Strings
use linyaps.Utils.Strings.{split_string}
use linyaps.Qt.{Qt, NumberLaws, SplitLaws, CompareLaws, is_numeral}

unfoldable pub digits_of : ℕ → ℕ → Text
digits_of zero n = []
digits_of (suc fuel) n =
    let front = digits_of fuel (n / 10) in
    if ltb n 10 then (48 + n) ∷ [] else front ++ (48 + n % 10) ∷ []

unfoldable pub number : ℕ → Text
unfolding digits_of
number n = digits_of (suc n) n

unfoldable pub value_from : ℕ → Text → ℕ
value_from acc [] = acc
value_from acc (c ∷ cs) = value_from (10 * acc + (c - 48)) cs

abbrev pub value : Text → ℕ
value t = value_from 0 t

unfoldable pub to_long_long : Text → Option ℕ
unfolding number value_from
to_long_long t =
    if text_eq (number (value t)) t && ltb (value t) (2 ^ 63) then some (value t) else none

unfoldable pub to_int : Text → Option ℤ
unfolding is_numeral value_from
to_int [] = none
to_int (c ∷ cs) =
    if c == b'-' && is_numeral cs && ltb (value cs) 2147483649
    then some (negsuc (value cs - 1))
    else if is_numeral (c ∷ cs) && ltb (value (c ∷ cs)) 2147483648
    then some (pos (value (c ∷ cs)))
    else none

unfoldable pub compare_texts : Text → Text → ℤ
unfolding lex_lt
compare_texts s t = if lex_lt s t then negsuc 0 else if lex_lt t s then pos 1 else pos 0

abbrev pub sample_qt : Qt
sample_qt = record {
  number = number;
  to_long_long = to_long_long;
  to_int = to_int;
  compare = compare_texts;
  split = split_string;
  join = λ ps d. Strings.join d ps;
}

value_from-snoc :
    (acc : ℕ) (t : Text) (c : ℕ) → value_from acc (t ++ c ∷ []) ≡ 10 * value_from acc t + (c - 48)
unfolding value_from
value_from-snoc acc [] c = refl
value_from-snoc acc (x ∷ xs) c = value_from-snoc (10 * acc + (x - 48)) xs c

value-digits_of : (fuel n : ℕ) → n < fuel → value_from 0 (digits_of fuel n) ≡ n
unfolding digits_of value_from
value-digits_of zero n h = omega arith
value-digits_of (suc fuel) n h = elim (Bool-cases (ltb n 10)) [
  | inl e ↦ rw e (omega arith)
  | inr e ↦
      let rest = value-digits_of fuel (n / 10) (ground arith) in
      rw e (value_from-snoc 0 (digits_of fuel (n / 10)) (48 + n % 10) ∙ omega (arith, rest))
]

value-number : (n : ℕ) → value_from 0 (number n) ≡ n
unfolding number
value-number n = value-digits_of (suc n) n (omega arith)

is_digit-digit : (n : ℕ) → is_digit (48 + n % 10) ≡ true
is_digit-digit n = ground arith

all-snoc :
    (t : Text) (c : ℕ)
    → all is_digit t ≡ true
    → is_digit c ≡ true
    → all is_digit (t ++ c ∷ []) ≡ true
all-snoc [] c h k = ground arith
all-snoc (x ∷ xs) c h k = ground (arith, all-snoc xs c)

is_numeral-snoc :
    (t : Text) (c : ℕ)
    → is_numeral t ≡ true
    → text_eq t (48 ∷ []) ≡ false
    → is_digit c ≡ true
    → is_numeral (t ++ c ∷ []) ≡ true
unfolding is_numeral text_eq
is_numeral-snoc [] c h z k = cc
is_numeral-snoc (x ∷ []) c h z k = ground arith
is_numeral-snoc (x ∷ y ∷ ys) c h z k = ground (arith, all-snoc (y ∷ ys) c)

value-zero : value (48 ∷ []) ≡ 0
unfolding value_from
value-zero = refl

digits_of-positive : (fuel n : ℕ) → n < fuel → 1 ≤ n → text_eq (digits_of fuel n) (48 ∷ []) ≡ false
digits_of-positive fuel n h k = elim (Bool-cases (text_eq (digits_of fuel n) (48 ∷ []))) [
  | inl e ↦
      let same =
        sym (value-digits_of fuel n h) ∙ ap value (text_eq→eq (digits_of fuel n) (48 ∷ []) e) in
      absurd (omega (arith, same, value-zero))
  | inr e ↦ e
]

digits_of-is_numeral : (fuel n : ℕ) → n < fuel → is_numeral (digits_of fuel n) ≡ true
unfolding digits_of
digits_of-is_numeral zero n h = ground arith
digits_of-is_numeral (suc fuel) n h = elim (Bool-cases (ltb n 10)) [
  | inl e ↦ rw e (unfold is_numeral in ground arith)
  | inr e ↦
      let front = digits_of-is_numeral fuel (n / 10) (ground arith) in
      rw e (
        is_numeral-snoc (digits_of fuel (n / 10)) (48 + n % 10) front
          (digits_of-positive fuel (n / 10) (ground arith) (ground arith)) (is_digit-digit n))
]

long_long-value :
    (t : Text)
    → (text_eq (number (value t)) t && ltb (value t) (2 ^ 63)) ≡ true
    → to_long_long t ≡ some (value t)
unfolding to_long_long
long_long-value t e = rw e

long_long-none :
    (t : Text)
    → (text_eq (number (value t)) t && ltb (value t) (2 ^ 63)) ≡ false
    → to_long_long t ≡ none
unfolding to_long_long
long_long-none t e = rw e

long_long-number : (n : ℕ) → n < 2 ^ 63 → to_long_long (number n) ≡ some n
long_long-number n h =
    let back = value-number n in
    long_long-value (number n) (
      ap (λ k. text_eq (number k) (number n) && ltb k (2 ^ 63)) back
      ∙ ground (arith, text_eq_refl (number n)))
    ∙ ap some back

compare-zero_eq : (s t : Text) → is_zero (compare_texts s t) ≡ true → s ≡ t
unfolding compare_texts
compare-zero_eq s t h = lex_lt-total s t (ground arith) (ground arith)

compare-empty_lt : (t : Text) → is_empty t ≡ false → is_negative (compare_texts [] t) ≡ true
unfolding compare_texts
compare-empty_lt [] h = cc
compare-empty_lt (x ∷ xs) h = unfold lex_lt in refl

long_long-some : (t : Text) (n : ℕ) → to_long_long t ≡ some n → (number n ≡ t) × (n < 2 ^ 63)
long_long-some t n h = elim (Bool-cases (text_eq (number (value t)) t && ltb (value t) (2 ^ 63))) [
  | inl e ↦
      let same = some-injective (sym (long_long-value t e) ∙ h) in
      (
        subst (λ k. number k ≡ t) same (text_eq→eq (number (value t)) t (ground arith)),
        subst (λ k. k < 2 ^ 63) same (ground arith),
      )
  | inr e ↦ absurd (cc (long_long-none t e))
]

pub sample_numbers : NumberLaws sample_qt
sample_numbers = record {
  number-is_numeral = λ n. unfold number in digits_of-is_numeral (suc n) n (omega arith);
  to_long_long-number = long_long-number;
  to_long_long-lt = λ t n h. (long_long-some t n h).1;
  number-to_long_long = λ t n k h. (long_long-some t n h).0;
}

pub sample_splits : SplitLaws sample_qt
sample_splits = record { split_lem = λ t d. refl; join_lem = λ ps d. refl }

pub sample_compares : CompareLaws sample_qt
sample_compares = record {
  compare-self = λ s. unfold compare_texts in rw (lex_lt_irrefl s) refl;
  compare-zero = compare-zero_eq;
  compare-swap = λ s t. unfold compare_texts in ground (arith, lex_lt-asym s t);
  compare-empty = compare-empty_lt;
  to_int-empty = unfold to_int in refl;
}
