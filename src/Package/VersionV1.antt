-- ===== src/Package/VersionV1.antt =====
-- package/versionv1.h and versionv1.cpp: versions of three or four numbers. The comparisons with the
-- other kinds of version stand in `VersionV2` and `FallbackVersion`.
pub mod RoundTrip
pub mod Order
use linyaps.Prelude.{
  ℕ, ◌+◌, ◌%◌, ◌^◌, ◌<◌, ◌==◌, Bool, true, false, not, ◌&&◌, ◌||◌, Option, none, some, List, [],
  ◌∷◌, ◌++◌, Text, text_eq, lex_lt, is_some, if◌then◌else◌,
}
use linyaps.Error.{
  Error, Result, ok, err, ◌>>=◌, or_fail, regexp_mismatched, major_too_large, minor_too_large,
  patch_too_large, tweak_too_large,
}
use linyaps.Qt.{Qt}
use linyaps.Package.Pattern.{Captured, match_v1}

-- The fields are `qlonglong`, held as their 64-bit patterns.
pub record VersionV1 : Type 0 where
  pub major : ℕ
  pub minor : ℕ
  pub patch : ℕ
  pub tweak : Option ℕ

-- A 64-bit pattern, placed as its signed value is.
abbrev pub signed : ℕ → ℕ
signed n = (n + 9223372036854775808) % 18446744073709551616

abbrev pub value_or : Option ℕ → ℕ → ℕ
value_or none d = d
value_or (some n) d = n

read_tweak : Qt → Option Text → Result (Option ℕ)
read_tweak qt none = ok none
read_tweak qt (some t) = do n ← or_fail tweak_too_large (qt.to_long_long t); ok (some n)

-- The constructor; `parse` hands its exception on as an error.
unfoldable pub parse : Qt → Text → Result VersionV1
unfolding read_tweak
parse qt raw = do
  matched ← or_fail regexp_mismatched (match_v1 raw)
  major ← or_fail major_too_large (qt.to_long_long matched.c1)
  minor ← or_fail minor_too_large (qt.to_long_long matched.c2)
  patch ← or_fail patch_too_large (qt.to_long_long matched.c3)
  tweak ← read_tweak qt matched.c4
  ok (record { major = major; minor = minor; patch = patch; tweak = tweak })

tweak_text : Qt → Option ℕ → Text
tweak_text qt none = []
tweak_text qt (some n) = b'.' ∷ qt.number n

unfoldable pub to_string : Qt → VersionV1 → Text
unfolding tweak_text
to_string qt v =
    qt.number v.major
    ++ (b'.' ∷ (qt.number v.minor ++ (b'.' ∷ (qt.number v.patch ++ tweak_text qt v.tweak))))

tweaks_differ : Option ℕ → Option ℕ → Bool
tweaks_differ (some a) (some b) = not (a == b)
tweaks_differ a b = false

-- The match with a fuzzy version that has been parsed.
matches_parsed : VersionV1 → Result VersionV1 → Bool
unfolding tweaks_differ
matches_parsed v (err e) = false
matches_parsed v (ok fuzzy) =
    if not (fuzzy.major == v.major)
    then false
    else if not (fuzzy.minor == v.minor)
    then false
    else if not (fuzzy.patch == v.patch)
    then false
    else if tweaks_differ fuzzy.tweak v.tweak
    then false
    else true

unfoldable pub semantic_match : Qt → VersionV1 → Text → Bool
unfolding matches_parsed
semantic_match qt v version_str = matches_parsed v (parse qt version_str)

-- `std::tie(major, minor, patch, tweak.value_or(0))`, placed as the signed values are.
unfoldable pub tie : VersionV1 → List ℕ
tie v = signed v.major ∷ signed v.minor ∷ signed v.patch ∷ signed (value_or v.tweak 0) ∷ []

unfoldable pub eq : VersionV1 → VersionV1 → Bool
unfolding tie
eq v w =
    if (is_some v.tweak && not (is_some w.tweak)) || (not (is_some v.tweak) && is_some w.tweak)
    then false
    else text_eq (tie v) (tie w)

unfoldable pub ne : VersionV1 → VersionV1 → Bool
unfolding eq
ne v w = not (eq v w)

unfoldable pub lt : VersionV1 → VersionV1 → Bool
unfolding tie
lt v w = lex_lt (tie v) (tie w)

unfoldable pub gt : VersionV1 → VersionV1 → Bool
unfolding tie
gt v w = lex_lt (tie w) (tie v)

unfoldable pub le : VersionV1 → VersionV1 → Bool
unfolding eq lt
le v w = eq v w || lt v w

unfoldable pub ge : VersionV1 → VersionV1 → Bool
unfolding eq gt
ge v w = eq v w || gt v w

-- Every field is a `qlonglong` that is not negative.
abbrev pub TweakFits : Option ℕ → Type 0
TweakFits none = Unit
TweakFits (some n) = n < 2 ^ 63

pub record Fits (v : VersionV1) : Type 0 where
  pub major : v.major < 2 ^ 63
  pub minor : v.minor < 2 ^ 63
  pub patch : v.patch < 2 ^ 63
  pub tweak : TweakFits v.tweak
