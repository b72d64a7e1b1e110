-- ===== src/Package/Numeral.antt =====
-- The pieces of the regular expressions of version strings: `(0|[1-9]\d*)`, `\.` and `$`. A piece
-- reads a prefix of the subject, and gives what it read and the rest. No backtracking is lost: a
-- shorter run of digits is followed by a digit, which no piece after a number accepts.
use linyaps.Prelude.{
  ◌≡◌, refl, Bool, true, not, ◌&&◌, Option, none, some, [], ◌∷◌, ◌++◌, Text, all, is_digit,
  is_empty, ◌==◌, if◌then◌else◌, arith,
}
use linyaps.Qt.{is_numeral}

-- `\d*`
unfoldable pub digits : Text → Text × Text
digits [] = ([], [])
digits (c ∷ cs) =
    let (run, rest) = digits cs in if is_digit c then (c ∷ run, rest) else ([], c ∷ cs)

-- `(0|[1-9]\d*)`
unfoldable pub numeral : Text → Option (Text × Text)
unfolding digits
numeral [] = none
numeral (c ∷ cs) =
    let (run, rest) = digits cs in
    if c == b'0' then some (c ∷ [], cs) else if is_digit c then some (c ∷ run, rest) else none

-- `\.`
unfoldable pub dot : Text → Option Text
dot [] = none
dot (c ∷ cs) = if c == b'.' then some cs else none

-- `$`: the end of the subject, or before a newline at its end.
unfoldable pub at_end : Text → Bool
at_end [] = true
at_end (c ∷ cs) = c == 10 && is_empty cs

-- The text does not go on with a digit.
abbrev pub ends_run : Text → Bool
ends_run [] = true
ends_run (c ∷ cs) = not (is_digit c)

digits-append :
    (run rest : Text)
    → all is_digit run ≡ true
    → ends_run rest ≡ true
    → digits (run ++ rest) ≡ (run, rest)
unfolding digits
digits-append [] [] h k = refl
digits-append [] (c ∷ rest) h k = ground arith
digits-append (c ∷ run) rest h k = ground (arith, digits-append run rest)

-- The piece reads a number that no digit follows.
pub numeral-append :
    (t rest : Text)
    → is_numeral t ≡ true
    → ends_run rest ≡ true
    → numeral (t ++ rest) ≡ some (t, rest)
unfolding numeral is_numeral
numeral-append [] rest h k = cc
numeral-append (c ∷ []) rest h k = ground (arith, digits-append [] rest)
numeral-append (c ∷ d ∷ t) rest h k = ground (arith, digits-append (d ∷ t) rest)

digits_lem : (s : Text) → (s ≡ (digits s).0 ++ (digits s).1) × (all is_digit (digits s).0 ≡ true)
unfolding digits
digits_lem [] = (refl, refl)
digits_lem (c ∷ cs) = ground (arith, digits_lem cs)

-- What the piece reads is a number, and a prefix of the subject.
pub numeral_sound :
    (s t rest : Text) → numeral s ≡ some (t, rest) → (s ≡ t ++ rest) × (is_numeral t ≡ true)
unfolding numeral is_numeral
numeral_sound [] t rest h = cc
numeral_sound (c ∷ cs) t rest h = ground (arith, digits_lem cs)

pub dot_sound : (s rest : Text) → dot s ≡ some rest → s ≡ b'.' ∷ rest
unfolding dot
dot_sound [] rest h = cc
dot_sound (c ∷ cs) rest h = ground arith
