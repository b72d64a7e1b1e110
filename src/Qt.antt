-- ===== src/Qt.antt =====
-- What the package code uses of Qt's text classes, as a parameter of the models, and the documented
-- behaviour that some theorems rely on. `split` is `QString::split(d, Qt::SkipEmptyParts)`, `join`
-- is `QStringList::join`, `number` is `QString::number` and `QString::arg` of a number that is not
-- negative, `to_long_long` and `to_int` are `QString::toLongLong(&ok)` and `QString::toInt(&ok)` with
-- `none` where `ok` is false. The code calls `toLongLong` on runs of digits only, so that its result
-- is not negative.
use linyaps.Prelude.{
  ℕ, ◌<◌, ◌^◌, ◌≡◌, Bool, true, false, Option, none, some, List, [], ◌∷◌, ◌&&◌, Text, all, is_digit,
  is_empty, ◌==◌, if◌then◌else◌, ℤ, is_negative, is_positive, is_zero,
}
use linyaps.Utils.Strings
use linyaps.Utils.Strings.{split_string}

pub record Qt : Type 0 where
  pub number : ℕ → Text
  pub to_long_long : Text → Option ℕ
  pub to_int : Text → Option ℤ
  pub compare : Text → Text → ℤ
  pub split : Text → ℕ → List Text
  pub join : List Text → ℕ → Text

-- A decimal number in its shortest form: `0|[1-9]\d*`.
unfoldable pub is_numeral : Text → Bool
is_numeral [] = false
is_numeral (c ∷ cs) = if c == b'0' then is_empty cs else is_digit c && all is_digit cs

-- `QString::number` writes the shortest form, and `toLongLong` reads it within 63 bits.
pub record NumberLaws (qt : Qt) : Type 0 where
  pub number-is_numeral : (n : ℕ) → is_numeral (qt.number n) ≡ true
  pub to_long_long-number : (n : ℕ) → n < 2 ^ 63 → qt.to_long_long (qt.number n) ≡ some n
  pub to_long_long-lt : (t : Text) (n : ℕ) → qt.to_long_long t ≡ some n → n < 2 ^ 63
  pub number-to_long_long :
      (t : Text) (n : ℕ) → is_numeral t ≡ true → qt.to_long_long t ≡ some n → qt.number n ≡ t

-- `split` with `SkipEmptyParts` keeps the parts that are not empty; `join` puts the separator
-- between the parts.
pub record SplitLaws (qt : Qt) : Type 0 where
  pub split_lem : (t : Text) (d : ℕ) → qt.split t d ≡ split_string t d
  pub join_lem : (ps : List Text) (d : ℕ) → qt.join ps d ≡ Strings.join d ps

-- `QString::compare` is negative, zero or positive as the texts are ordered, and the empty text
-- comes first; no number is read from the empty text.
pub record CompareLaws (qt : Qt) : Type 0 where
  pub compare-self : (s : Text) → is_zero (qt.compare s s) ≡ true
  pub compare-zero : (s t : Text) → is_zero (qt.compare s t) ≡ true → s ≡ t
  pub compare-swap : (s t : Text) → is_negative (qt.compare s t) ≡ is_positive (qt.compare t s)
  pub compare-empty : (t : Text) → is_empty t ≡ false → is_negative (qt.compare [] t) ≡ true
  pub to_int-empty : qt.to_int [] ≡ none
