-- ===== src/Utils/BashQuote/Unquote.antt =====
-- How a shell reads a quoted argument (POSIX shell, 2.2 Quoting), as an independent description:
-- inside single quotes every unit stands for itself up to the next quote; outside, a backslash
-- makes the next unit stand for itself.
use linyaps.Prelude.{
  ℕ, ◌==◌, ==_iff, ◌≡◌, refl, sym, ap, subst, Option, none, some, [], ◌∷◌, ◌++◌, Text,
  if◌then◌else◌, Bool-cases, inl, inr,
}
use linyaps.Utils.BashQuote.{escape, quote_bash_arg}

abbrev with_unit : ℕ → Option Text → Option Text
with_unit c none = none
with_unit c (some t) = some (c ∷ t)

-- Outside of quotes, inside of single quotes, and behind a backslash.
pub data Quoting : Type 0 where
  outside inside escaped : Quoting

-- The text that a word stands for; `none` where a quote or a backslash is left open, or a unit
-- stands outside of quotes that may end the word or be expanded.
unfoldable pub unquote : Quoting → Text → Option Text
unquote outside [] = some []
unquote inside [] = none
unquote escaped [] = none
unquote escaped (c ∷ cs) = with_unit c (unquote outside cs)
unquote inside (c ∷ cs) =
    let closed = unquote outside cs in
    let quoted = unquote inside cs in if c == b'\'' then closed else with_unit c quoted
unquote outside (c ∷ cs) =
    let quoted = unquote inside cs in
    let next = unquote escaped cs in
    if c == b'\'' then quoted else if c == b'\\' then next else none

unquote-escape : (arg : Text) → unquote inside (escape arg ++ b'\'' ∷ []) ≡ some arg
unfolding unquote escape
unquote-escape [] = refl
unquote-escape (c ∷ cs) =
    let rest = unquote-escape cs in
    elim (Bool-cases (c == b'\'')) [
      | inl e ↦
          subst (λ d. unquote inside (escape (d ∷ cs) ++ b'\'' ∷ []) ≡ some (d ∷ cs))
            (sym ((==_iff c b'\'').0 e)) (ap (with_unit b'\'') rest)
      | inr e ↦ rw e (rw e (ap (with_unit c) rest))
    ]

-- A shell that reads the quoted argument gets the argument: one word, nothing in it expanded.
pub unquote-quote_bash_arg : (arg : Text) → unquote outside (quote_bash_arg arg) ≡ some arg
unfolding unquote quote_bash_arg
unquote-quote_bash_arg arg = unquote-escape arg
