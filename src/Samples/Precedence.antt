-- ===== src/Samples/Precedence.antt =====
-- A function that reads three numbers with dots between them as a semantic version, and orders these
-- by major, minor and patch.
use linyaps.Prelude.{
  Bool, true, not, ◌&&◌, Option, none, some, [], Text, is_some, lex_lt, lex_lt-asym, lex_lt_trans,
  lex_le_trans, arith, if◌then◌else◌,
}
use linyaps.Error.{Result, ok, err}
use linyaps.Semver.{Semver, SemverVersion, PrecedenceLaws, semver_core}
use linyaps.Package.VersionV1
use linyaps.Package.VersionV1.{VersionV1}
use linyaps.Samples.QtTexts.{sample_qt}

abbrev pub three_numbers : Result VersionV1 → Option SemverVersion
three_numbers (err e) = none
three_numbers (ok v) =
    if is_some v.tweak
    then none
    else some (record {
      major = v.major;
      minor = v.minor;
      patch = v.patch;
      prerelease = [];
      build_meta = [];
      security = 0;
      has_patch = true;
    })

unfoldable pub parse : Text → Bool → Option SemverVersion
unfolding VersionV1.parse
parse t strict = three_numbers (VersionV1.parse sample_qt t)

unfoldable pub str : SemverVersion → Text
unfolding VersionV1.to_string
str v =
    VersionV1.to_string sample_qt
      (record { major = v.major; minor = v.minor; patch = v.patch; tweak = none })

unfoldable pub less : SemverVersion → SemverVersion → Bool
unfolding lex_lt
less a b = lex_lt (semver_core a) (semver_core b)

unfoldable pub equal : SemverVersion → SemverVersion → Bool
unfolding less
equal a b = not (less a b) && not (less b a)

abbrev pub sample_semver : Semver
sample_semver = record { parse = parse; str = str; equal = equal; less = less }

pub sample_precedence : PrecedenceLaws sample_semver
unfolding less equal
sample_precedence = record {
  less-asym = λ a b h. lex_lt-asym (semver_core a) (semver_core b) h;
  less-trans = λ a b c h k. lex_lt_trans (semver_core a) (semver_core b) (semver_core c) h k;
  less-equal = λ a b h. ground arith;
  equal-comm = λ a b. ground arith;
  equal-total = λ a b h k. ground arith;
  less-core = λ a b h. h;
  less-not_trans = λ a b c h k. lex_le_trans (semver_core a) (semver_core b) (semver_core c) h k;
}
