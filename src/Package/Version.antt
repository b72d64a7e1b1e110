-- ===== src/Package/Version.antt =====
-- package/version.h and version.cpp: a version of one of the three kinds.
pub mod Parse
pub mod Order
use linyaps.Prelude.{
  Bool, true, false, not, ◌&&◌, ◌||◌, none, List, [], ◌∷◌, Text, is_some, if◌then◌else◌,
}
use linyaps.Error.{Error, Result, ok, err, parse_version_failed, regexp_mismatched}
use linyaps.Qt.{Qt}
use linyaps.Semver.{Semver}
use linyaps.Package.Pattern.{match_depend}
use linyaps.Package.VersionV1
use linyaps.Package.VersionV1.{VersionV1}
use linyaps.Package.VersionV2
use linyaps.Package.VersionV2.{VersionV2, eq12, lt12, eq21, lt21}
use linyaps.Package.FallbackVersion
use linyaps.Package.FallbackVersion.{FallbackVersion}
use linyaps.Package.Mixed.{eq1f, lt1f, eq2f, lt2f, eqf1, ltf1, eqf2, ltf2}
use linyaps.Package.Info.{PackageInfoV2}

-- The alternatives of the `std::variant`.
pub data Version : Type 0 where
  version_v2 : VersionV2 → Version
  version_v1 : VersionV1 → Version
  fallback_version : FallbackVersion → Version

pub record ParseOptions : Type 0 where
  pub strict : Bool
  pub fallback : Bool

abbrev pub default_options : ParseOptions
default_options = record { strict = true; fallback = true }

-- The steps of `parse` after each of its three attempts.
after_fallback : Result FallbackVersion → Result Version
after_fallback (ok v) = ok (fallback_version v)
after_fallback (err e) = err parse_version_failed

after_v1 : Qt → Text → Result VersionV1 → Result Version
unfolding after_fallback
after_v1 qt raw (ok v) = ok (version_v1 v)
after_v1 qt raw (err e) = after_fallback (FallbackVersion.parse qt raw)

after_v2 : Qt → Text → ParseOptions → Result VersionV2 → Result Version
unfolding after_v1
after_v2 qt raw opt (ok v) = ok (version_v2 v)
after_v2 qt raw opt (err e) =
    if not opt.fallback then err parse_version_failed else after_v1 qt raw (VersionV1.parse qt raw)

unfoldable pub parse : Qt → Semver → Text → ParseOptions → Result Version
unfolding after_v2
parse qt sv raw opt = after_v2 qt raw opt (VersionV2.parse sv raw opt.strict)

unfoldable pub validate_depend_version : Text → Result (Unit {0})
validate_depend_version raw = if not (match_depend raw) then err regexp_mismatched else ok tt

unfoldable pub semantic_match : Qt → Semver → Version → Text → Bool
semantic_match qt sv (version_v1 v) version_str = VersionV1.semantic_match qt v version_str
semantic_match qt sv (version_v2 v) version_str = VersionV2.semantic_match sv v version_str
semantic_match qt sv (fallback_version v) version_str =
    FallbackVersion.semantic_match qt v version_str

-- What the loop of `filterByFuzzyVersion` does with a record: keep it, or erase it.
keeps_record : Qt → Semver → Text → Result Version → Bool
unfolding semantic_match
keeps_record qt sv fuzzy (err e) = false
keeps_record qt sv fuzzy (ok v) = if not (semantic_match qt sv v fuzzy) then false else true

unfoldable pub filter_by_fuzzy_version :
    Qt → Semver → List PackageInfoV2 → Text → List PackageInfoV2
unfolding keeps_record parse
filter_by_fuzzy_version qt sv [] fuzzy = []
filter_by_fuzzy_version qt sv (it ∷ list) fuzzy =
    let rest = filter_by_fuzzy_version qt sv list fuzzy in
    if keeps_record qt sv fuzzy (parse qt sv it.version default_options) then it ∷ rest else rest

unfoldable pub ignore_tweak : Version → Version
ignore_tweak (version_v1 v) = version_v1 (record v { tweak = none })
ignore_tweak (version_v2 v) = version_v2 v
ignore_tweak (fallback_version v) = fallback_version v

unfoldable pub is_version_v1 : Version → Bool
is_version_v1 (version_v1 v) = true
is_version_v1 (version_v2 v) = false
is_version_v1 (fallback_version v) = false

unfoldable pub has_tweak : Version → Bool
has_tweak (version_v1 v) = is_some v.tweak
has_tweak (version_v2 v) = false
has_tweak (fallback_version v) = false

unfoldable pub to_string : Qt → Semver → Version → Text
to_string qt sv (version_v1 v) = VersionV1.to_string qt v
to_string qt sv (version_v2 v) = VersionV2.to_string sv v
to_string qt sv (fallback_version v) = FallbackVersion.to_string qt v

module _ (qt : Qt) (sv : Semver) where
  -- `std::visit` with `==` and with `<`, over the alternatives of both sides.
  unfoldable pub eq : Version → Version → Bool
  eq (version_v2 a) (version_v2 b) = VersionV2.eq sv a b
  eq (version_v2 a) (version_v1 b) = eq21 a b
  eq (version_v2 a) (fallback_version b) = eq2f qt sv a b
  eq (version_v1 a) (version_v2 b) = eq12 a b
  eq (version_v1 a) (version_v1 b) = VersionV1.eq a b
  eq (version_v1 a) (fallback_version b) = eq1f qt a b
  eq (fallback_version a) (version_v2 b) = eqf2 qt sv a b
  eq (fallback_version a) (version_v1 b) = eqf1 qt a b
  eq (fallback_version a) (fallback_version b) = FallbackVersion.eq a b

  unfoldable pub lt : Version → Version → Bool
  lt (version_v2 a) (version_v2 b) = VersionV2.lt sv a b
  lt (version_v2 a) (version_v1 b) = lt21 a b
  lt (version_v2 a) (fallback_version b) = lt2f qt sv a b
  lt (version_v1 a) (version_v2 b) = lt12 a b
  lt (version_v1 a) (version_v1 b) = VersionV1.lt a b
  lt (version_v1 a) (fallback_version b) = lt1f qt a b
  lt (fallback_version a) (version_v2 b) = ltf2 qt sv a b
  lt (fallback_version a) (version_v1 b) = ltf1 qt a b
  lt (fallback_version a) (fallback_version b) = FallbackVersion.lt qt a b

  unfoldable pub ne : Version → Version → Bool
  unfolding eq
  ne a b = not (eq a b)

  unfoldable pub gt : Version → Version → Bool
  unfolding eq lt
  gt a b = not (eq a b) && not (lt a b)

  unfoldable pub le : Version → Version → Bool
  unfolding eq lt
  le a b = eq a b || lt a b

  unfoldable pub ge : Version → Version → Bool
  unfolding lt
  ge a b = not (lt a b)
