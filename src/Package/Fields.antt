-- ===== src/Package/Fields.antt =====
-- The pieces of the regular expressions of references: `[^d]*`, `[^d]+` and a separator.
use linyaps.Prelude.{
  ℕ, ◌≡◌, refl, Bool, true, false, Option, none, some, [], ◌∷◌, ◌++◌, Text, lacks, is_empty, ◌==◌,
  ==-refl, if◌then◌else◌, arith,
}

-- `[^d]*`: the longest run with no `d`, and the rest.
unfoldable pub run : ℕ → Text → Text × Text
run d [] = ([], [])
run d (c ∷ cs) = let (taken, rest) = run d cs in if c == d then ([], c ∷ cs) else (c ∷ taken, rest)

-- `[^d]+`
unfoldable pub run_some : ℕ → Text → Option (Text × Text)
unfolding run
run_some d s = if is_empty (run d s).0 then none else some (run d s)

-- The separator.
unfoldable pub separator : ℕ → Text → Option Text
separator d [] = none
separator d (c ∷ cs) = if c == d then some cs else none

-- The text ends here, or goes on with the separator.
abbrev pub stops : ℕ → Text → Bool
stops d [] = true
stops d (c ∷ cs) = c == d

pub run-append :
    (d : ℕ) (p rest : Text) → lacks d p ≡ true → stops d rest ≡ true → run d (p ++ rest) ≡ (p, rest)
unfolding run
run-append d [] [] h k = refl
run-append d [] (c ∷ rest) h k = ground arith
run-append d (c ∷ p) rest h k = ground (arith, run-append d p rest)

pub run_some-append :
    (d : ℕ) (p rest : Text)
    → is_empty p ≡ false
    → lacks d p ≡ true
    → stops d rest ≡ true
    → run_some d (p ++ rest) ≡ some (p, rest)
unfolding run_some
run_some-append d p rest e h k = ground (arith, run-append d p rest)

-- What was taken has no `d`, is followed by `d` or nothing, and is a prefix.
pub run_lem :
    (d : ℕ) (s : Text)
    → (lacks d (run d s).0 ≡ true) × (stops d (run d s).1 ≡ true) × (s ≡ (run d s).0 ++ (run d s).1)
unfolding run
run_lem d [] = (refl, refl, refl)
run_lem d (c ∷ cs) = ground (arith, run_lem d cs)

pub run_some_sound :
    (d : ℕ) (s p rest : Text)
    → run_some d s ≡ some (p, rest)
    → (is_empty p ≡ false) × (lacks d p ≡ true) × (s ≡ p ++ rest)
unfolding run_some
run_some_sound d s p rest h = ground (arith, run_lem d s)

pub separator_self : (d : ℕ) (rest : Text) → separator d (d ∷ rest) ≡ some rest
unfolding separator
separator_self d rest = rw ==-refl
