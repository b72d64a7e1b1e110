-- ===== src/Package/Version/Parse.antt =====
-- Which texts `Version::parse` reads, and as what.
use linyaps.Prelude.{
  is_some, Option-cases, ◌≢◌, ℕ, ◌≡◌, ◌↔◌, inl, inr, refl, ◌∙◌, Bool, true, false, not, ◌&&◌, none,
  some, List, [], ◌∷◌, ◌++◌, Text, is_empty, all, arith, Option, ◌==◌, append_assoc, if◌then◌else◌,
}
use linyaps.Error.{
  Result, ok, err, ◌>>=◌, or_fail, or_fail-eq-ok, >>=-eq-ok, parse_version_failed,
  regexp_mismatched, invalid_semver,
}
use linyaps.Qt.{Qt, SplitLaws, is_numeral}
use linyaps.Semver.{Semver, SemverVersion}
use linyaps.Utils.Strings.{split_string, split_loop}
use linyaps.Package.Pattern.{match_v1, match_v1_sound, Captured, dotted, IsNumerals}
use linyaps.Package.VersionV1
use linyaps.Package.VersionV1.{VersionV1}
use linyaps.Package.VersionV2
use linyaps.Package.VersionV2.{from_semver}
use linyaps.Package.FallbackVersion
use linyaps.Package.Version.{
  Version, parse, default_options, is_version_v1, has_tweak, after_v1, after_v2,
}

-- The text has no other units than dots.
abbrev pub only_dots : Text → Bool
only_dots = all (λ c. c == b'.')

is_empty-snoc : {A : Type 0} (xs : List A) (x : A) → is_empty (xs ++ x ∷ []) ≡ false
is_empty-snoc [] x = refl
is_empty-snoc (y ∷ xs) x = refl

only_step :
    (d c : ℕ) (result : List Text) (token rest : Text)
    → (is_empty (if c == d && not (is_empty token) then result ++ token ∷ [] else result)
        && is_empty {A = ℕ} (if c == d then [] else token ++ c ∷ [])
        && all (λ c. c == d) rest)
      ≡ (is_empty result && is_empty token && all (λ c. c == d) (c ∷ rest))
only_step d c result token rest = ground (arith, is_empty-snoc result token, is_empty-snoc token c)

split_loop-only :
    (d : ℕ) (result : List Text) (token rest : Text)
    → is_empty (split_loop d result token rest)
      ≡ (is_empty result && is_empty token && all (λ c. c == d) rest)
unfolding split_loop
split_loop-only d [] [] [] = refl
split_loop-only d [] (t ∷ token) [] = refl
split_loop-only d (r ∷ result) [] [] = refl
split_loop-only d (r ∷ result) (t ∷ token) [] = refl
split_loop-only d result token (c ∷ rest) =
    split_loop-only d (if c == d && not (is_empty token) then result ++ token ∷ [] else result)
      (if c == d then [] else token ++ c ∷ []) rest
    ∙ only_step d c result token rest

-- A text has no parts exactly when it has only delimiters.
split_string-only : (d : ℕ) (str : Text) → is_empty (split_string str d) ≡ all (λ c. c == d) str
unfolding split_string
split_string-only d str = split_loop-only d [] [] str

numeral-not_only : (t rest : Text) → is_numeral t ≡ true → only_dots (t ++ rest) ≡ false
unfolding is_numeral
numeral-not_only [] rest h = cc
numeral-not_only (c ∷ t) rest h = ground arith

module _ (qt : Qt) where
  starts : (m : Captured) (rest : Text) → IsNumerals m → only_dots (dotted m ++ rest) ≡ false
  starts m rest n = rw append_assoc (numeral-not_only m.c1 _ n.n1)

  v1-not_only : (raw : Text) (v : VersionV1) → VersionV1.parse qt raw ≡ ok v → only_dots raw ≡ false
  unfolding VersionV1.parse
  v1-not_only raw v h =
      let (m, p, q) = >>=-eq-ok (or_fail regexp_mismatched (match_v1 raw)) _ h in
      let (rest, e, end, n) = match_v1_sound raw m (or_fail-eq-ok _ _ p) in rw e (starts m rest n)

  fails_v1 :
      (laws : SplitLaws qt) (raw : Text) (r : Result VersionV1)
      → VersionV1.parse qt raw ≡ r
      → (after_v1 qt raw r ≡ err parse_version_failed) ↔ (only_dots raw ≡ true)
  unfolding after_v1 FallbackVersion.parse
  fails_v1 laws raw (ok v) e = (λ h. cc, λ h. cc (v1-not_only raw v e))
  fails_v1 laws raw (err x) e = (
    λ h. ground (arith, laws.split_lem raw b'.', split_string-only b'.' raw),
    λ h. ground (arith, laws.split_lem raw b'.', split_string-only b'.' raw),
  )

  fails_v2 :
      (laws : SplitLaws qt) (raw : Text) (o : Option SemverVersion)
      → (after_v2 qt raw default_options (do s ← or_fail invalid_semver o; ok (from_semver s))
          ≡ err parse_version_failed)
        ↔ ((o ≡ none) × (only_dots raw ≡ true))
  unfolding after_v2
  fails_v2 laws raw none =
      let v1 = fails_v1 laws raw (VersionV1.parse qt raw) refl in
      (λ h. (refl, v1.0 h), λ h. v1.1 h.1)
  fails_v2 laws raw (some s) = (λ h. cc, λ h. cc h.0)

  -- With the default options `parse` fails exactly on the texts that the semantic version library
  -- refuses and that have only dots, or nothing, in them.
  pub parse-fails_iff :
      (sv : Semver) (laws : SplitLaws qt) (raw : Text)
      → (parse qt sv raw default_options ≡ err parse_version_failed)
        ↔ ((sv.parse raw true ≡ none) × (only_dots raw ≡ true))
  unfolding parse VersionV2.parse
  parse-fails_iff sv laws raw = fails_v2 laws raw (sv.parse raw true)

  v1_tweak :
      (raw : Text) (v : Version) (r : Result VersionV1)
      → VersionV1.parse qt raw ≡ r
      → ((u : VersionV1) → r ≡ ok u → u.tweak ≢ none)
      → after_v1 qt raw r ≡ ok v
      → is_version_v1 v ≡ true
      → has_tweak v ≡ true
  unfolding after_v1 is_version_v1 has_tweak FallbackVersion.parse
  v1_tweak raw v (ok u) e tweaked h k = ground (arith, tweaked u refl)
  v1_tweak raw v (err x) e tweaked h k = ground arith

  -- A result of `parse` that is a `VersionV1` has a tweak, if the semantic version library accepts
  -- every text of just three numbers that `VersionV1` accepts.
  pub parse-has_tweak :
      (sv : Semver)
      → ((raw : Text) (v : VersionV1)
          → VersionV1.parse qt raw ≡ ok v
          → v.tweak ≡ none
          → is_some (sv.parse raw true) ≡ true)
      → (raw : Text) (v : Version) → parse qt sv raw default_options ≡ ok v
      → is_version_v1 v ≡ true
      → has_tweak v ≡ true
  unfolding parse VersionV2.parse is_version_v1
  parse-has_tweak sv accepts raw v h k = elim (Option-cases (sv.parse raw true)) [
    | inl e ↦
        v1_tweak raw v (VersionV1.parse qt raw) refl (λ u p t. ground (arith, accepts raw u p t))
          (rw e at h) k
    | inr (s, e) ↦ ground arith
  ]
