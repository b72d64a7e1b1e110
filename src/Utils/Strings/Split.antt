-- ===== src/Utils/Strings/Split.antt =====
-- What `splitString` returns, and that it undoes `join`.
use linyaps.Prelude.{
  ℕ, ◌≡◌, refl, ◌∙◌, Bool-cases, inl, inr, true, false, not, ◌&&◌, List, [], ◌∷◌, ◌++◌, append-nil,
  append_assoc, Text, lacks, All, ◌==◌, ==-refl, is_empty, arith, if◌then◌else◌,
}
use linyaps.Utils.Strings.{split_loop, split_string, join}

-- A part that `splitString` can return: not empty, with no delimiter in it.
abbrev pub IsPart : ℕ → Text → Type 0
IsPart d t = (is_empty t ≡ false) × (lacks d t ≡ true)

-- A run with no delimiter goes to the token.
split_loop-run :
    (d : ℕ) (result : List Text) (token run rest : Text)
    → lacks d run ≡ true
    → split_loop d result token (run ++ rest) ≡ split_loop d result (token ++ run) rest
unfolding split_loop
split_loop-run d result token [] rest h = rw append-nil
split_loop-run d result token (c ∷ run) rest h =
    ground
      (arith, split_loop-run d result (token ++ c ∷ []) run rest, append_assoc token (c ∷ []) run)

is_empty-snoc : (t : Text) (c : ℕ) → is_empty (t ++ c ∷ []) ≡ false
is_empty-snoc [] c = refl
is_empty-snoc (x ∷ t) c = refl

lacks-snoc :
    (d : ℕ) (t : Text) (c : ℕ) → lacks d t ≡ true → (c == d) ≡ false → lacks d (t ++ c ∷ []) ≡ true
lacks-snoc d [] c h k = ground arith
lacks-snoc d (x ∷ t) c h k = ground (arith, lacks-snoc d t c)

All-snoc :
    (d : ℕ) (xs : List Text) (x : Text)
    → All (IsPart d) xs
    → IsPart d x
    → All (IsPart d) (xs ++ x ∷ [])
All-snoc d [] x h k = (k, tt)
All-snoc d (y ∷ xs) x h k = (h.0, All-snoc d xs x h.1 k)

next_result-IsPart :
    (d c : ℕ) (result : List Text) (token : Text)
    → All (IsPart d) result
    → lacks d token ≡ true
    → All (IsPart d) (if c == d && not (is_empty token) then result ++ token ∷ [] else result)
next_result-IsPart d c result [] h k = elim (Bool-cases (c == d)) [
  | inl e ↦ rw e h
  | inr e ↦ rw e h
]
next_result-IsPart d c result (t ∷ token) h k = elim (Bool-cases (c == d)) [
  | inl e ↦ rw e (All-snoc d result (t ∷ token) h (refl, k))
  | inr e ↦ rw e h
]

next_token-lacks :
    (d c : ℕ) (token : Text)
    → lacks d token ≡ true
    → lacks d (if c == d then [] else token ++ c ∷ []) ≡ true
next_token-lacks d c token k = ground (arith, lacks-snoc d token c)

-- Every part that the loop adds is one.
split_loop-IsPart :
    (d : ℕ) (result : List Text) (token rest : Text)
    → All (IsPart d) result
    → lacks d token ≡ true
    → All (IsPart d) (split_loop d result token rest)
unfolding split_loop
split_loop-IsPart d result [] [] h k = h
split_loop-IsPart d result (t ∷ token) [] h k = All-snoc d result (t ∷ token) h (refl, k)
split_loop-IsPart d result token (c ∷ rest) h k =
    split_loop-IsPart d (if c == d && not (is_empty token) then result ++ token ∷ [] else result)
      (if c == d then [] else token ++ c ∷ []) rest (next_result-IsPart d c result token h k)
      (next_token-lacks d c token k)

pub split_string-IsPart : (str : Text) (d : ℕ) → All (IsPart d) (split_string str d)
unfolding split_string
split_string-IsPart str d = split_loop-IsPart d [] [] str tt refl

-- A part at the end of the text, and a part before a delimiter.
split_loop-last :
    (d : ℕ) (result : List Text) (p : Text)
    → IsPart d p
    → split_loop d result [] p ≡ result ++ p ∷ []
unfolding split_loop
split_loop-last d result [] h = cc
split_loop-last d result (c ∷ p) h =
    ground (arith, split_loop-run d result [] (c ∷ p) [], append-nil (c ∷ p))

split_loop-part :
    (d : ℕ) (result : List Text) (p rest : Text)
    → IsPart d p
    → split_loop d result [] (p ++ d ∷ rest) ≡ split_loop d (result ++ p ∷ []) [] rest
unfolding split_loop
split_loop-part d result [] rest h = cc
split_loop-part d result (c ∷ p) rest h =
    ground (arith, split_loop-run d result [] (c ∷ p) (d ∷ rest), ==-refl d)

-- Splitting what `join` makes of such parts gives the parts back, after those already found.
split_loop-join :
    (d : ℕ) (result ps : List Text)
    → All (IsPart d) ps
    → split_loop d result [] (join d ps) ≡ result ++ ps
unfolding join
split_loop-join d result [] h = rw append-nil (unfold split_loop in refl)
split_loop-join d result (p ∷ []) h = split_loop-last d result p h.0
split_loop-join d result (p ∷ q ∷ ps) h =
    split_loop-part d result p (join d (q ∷ ps)) h.0
    ∙ split_loop-join d (result ++ p ∷ []) (q ∷ ps) h.1
    ∙ append_assoc result (p ∷ []) (q ∷ ps)

-- Splitting parts that are joined by the delimiter gives the parts back, if none of them is empty or
-- has the delimiter in it.
pub split_string-join :
    (d : ℕ) (ps : List Text) → All (IsPart d) ps → split_string (join d ps) d ≡ ps
unfolding split_string
split_string-join d ps h = split_loop-join d [] ps h
