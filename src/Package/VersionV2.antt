-- ===== src/Package/VersionV2.antt =====
-- package/versionv2.h and versionv2.cpp: semantic versions, compared with each other and with the
-- versions of `versionv1.h`. The comparisons that `versionv1.cpp` defines of a `VersionV1` with a
-- `VersionV2` stand here too, since they read both types.
use linyaps.Prelude.{
  ℕ, ◌==◌, Bool, true, false, not, ◌&&◌, ◌||◌, List, [], ◌∷◌, Text, text_eq, lex_lt, is_some,
  is_empty, if◌then◌else◌,
}
use linyaps.Error.{Result, ok, err, ◌>>=◌, or_fail, invalid_semver}
use linyaps.Semver.{Semver, SemverVersion}
use linyaps.Package.VersionV1.{VersionV1, signed}

-- The numbers are `qlonglong`, made from `uint64_t` and held as their 64-bit patterns.
pub record VersionV2 : Type 0 where
  pub major : ℕ
  pub minor : ℕ
  pub patch : ℕ
  pub prerelease : Text
  pub build_meta : Text
  pub security : ℕ
  pub has_patch : Bool

unfoldable pub from_semver : SemverVersion → VersionV2
from_semver s = record {
  major = s.major;
  minor = s.minor;
  patch = s.patch;
  prerelease = s.prerelease;
  build_meta = s.build_meta;
  security = s.security;
  has_patch = s.has_patch;
}

unfoldable pub parse : Semver → Text → Bool → Result VersionV2
unfolding from_semver
parse sv raw strict = do s ← or_fail invalid_semver (sv.parse raw strict); ok (from_semver s)

-- `semver::version(major, minor, patch, prerelease, buildMeta, security)`
unfoldable pub to_semver : VersionV2 → SemverVersion
to_semver v = record {
  major = v.major;
  minor = v.minor;
  patch = v.patch;
  prerelease = v.prerelease;
  build_meta = v.build_meta;
  security = v.security;
  has_patch = false;
}

matches_parsed : VersionV2 → Result VersionV2 → Bool
matches_parsed v (err e) = false
matches_parsed v (ok fuzzy) =
    if not (fuzzy.major == v.major)
    then false
    else if not (fuzzy.minor == v.minor)
    then false
    else if fuzzy.has_patch && not (fuzzy.patch == v.patch)
    then false
    else true

unfoldable pub semantic_match : Semver → VersionV2 → Text → Bool
unfolding matches_parsed parse
semantic_match sv v version_str = matches_parsed v (parse sv version_str false)

unfoldable pub eq : Semver → VersionV2 → VersionV2 → Bool
unfolding to_semver
eq sv v w = sv.equal (to_semver v) (to_semver w)

unfoldable pub ne : Semver → VersionV2 → VersionV2 → Bool
unfolding eq
ne sv v w = not (eq sv v w)

unfoldable pub lt : Semver → VersionV2 → VersionV2 → Bool
unfolding to_semver
lt sv v w = sv.less (to_semver v) (to_semver w)

unfoldable pub gt : Semver → VersionV2 → VersionV2 → Bool
unfolding eq lt
gt sv v w = not (eq sv v w) && not (lt sv v w)

unfoldable pub le : Semver → VersionV2 → VersionV2 → Bool
unfolding eq lt
le sv v w = eq sv v w || lt sv v w

unfoldable pub ge : Semver → VersionV2 → VersionV2 → Bool
unfolding lt
ge sv v w = not (lt sv v w)

unfoldable pub to_string : Semver → VersionV2 → Text
unfolding to_semver
to_string sv v = sv.str (to_semver v)

-- `std::tie(major, minor, patch)` of either kind, placed as the signed values are.
unfoldable pub core1 : VersionV1 → List ℕ
core1 v = signed v.major ∷ signed v.minor ∷ signed v.patch ∷ []

unfoldable pub core2 : VersionV2 → List ℕ
core2 v = signed v.major ∷ signed v.minor ∷ signed v.patch ∷ []

unfoldable pub eq12 : VersionV1 → VersionV2 → Bool
unfolding core1 core2
eq12 v1 v2 =
    if not (text_eq (core1 v1) (core2 v2))
    then false
    else not (is_some v1.tweak) && is_empty v2.prerelease && v2.security == 0

unfoldable pub ne12 : VersionV1 → VersionV2 → Bool
unfolding eq12
ne12 v1 v2 = not (eq12 v1 v2)

unfoldable pub lt12 : VersionV1 → VersionV2 → Bool
unfolding core1 core2
lt12 v1 v2 =
    if lex_lt (core1 v1) (core2 v2)
    then true
    else if text_eq (core1 v1) (core2 v2)
    then not (is_some v1.tweak) && is_empty v2.prerelease && not (v2.security == 0)
    else false

unfoldable pub gt12 : VersionV1 → VersionV2 → Bool
unfolding eq12 lt12
gt12 v1 v2 = not (eq12 v1 v2) && not (lt12 v1 v2)

unfoldable pub le12 : VersionV1 → VersionV2 → Bool
unfolding eq12 lt12
le12 v1 v2 = eq12 v1 v2 || lt12 v1 v2

unfoldable pub ge12 : VersionV1 → VersionV2 → Bool
unfolding lt12
ge12 v1 v2 = not (lt12 v1 v2)

-- versionv2.cpp's comparisons of a `VersionV2` with a `VersionV1`.
unfoldable pub eq21 : VersionV2 → VersionV1 → Bool
unfolding eq12
eq21 v2 v1 = eq12 v1 v2

unfoldable pub ne21 : VersionV2 → VersionV1 → Bool
unfolding eq12
ne21 v2 v1 = not (eq12 v1 v2)

unfoldable pub lt21 : VersionV2 → VersionV1 → Bool
unfolding gt12
lt21 v2 v1 = gt12 v1 v2

unfoldable pub gt21 : VersionV2 → VersionV1 → Bool
unfolding lt12
gt21 v2 v1 = lt12 v1 v2

unfoldable pub le21 : VersionV2 → VersionV1 → Bool
unfolding ge12
le21 v2 v1 = ge12 v1 v2

unfoldable pub ge21 : VersionV2 → VersionV1 → Bool
unfolding le12
ge21 v2 v1 = le12 v1 v2
