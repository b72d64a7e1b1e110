-- ===== src/Semver.antt =====
-- The calls that package/versionv2.cpp makes of the semantic version library `semver`
-- (libs/linglong/src/linglong/package/semver.hpp, a copy of another project's header), as a parameter
-- of the models, and the documented behaviour that some theorems rely on.
use linyaps.Prelude.{ℕ, ◌≡◌, Bool, true, false, Option, List, [], ◌∷◌, Text, lex_lt}

-- `semver::version`, through its accessors; the numbers are `uint64_t`.
pub record SemverVersion : Type 0 where
  pub major : ℕ
  pub minor : ℕ
  pub patch : ℕ
  pub prerelease : Text
  pub build_meta : Text
  pub security : ℕ
  pub has_patch : Bool

-- `parse raw strict` is `none` where the library throws; `equal` and `less` are `==` and `<`.
pub record Semver : Type 0 where
  pub parse : Text → Bool → Option SemverVersion
  pub str : SemverVersion → Text
  pub equal : SemverVersion → SemverVersion → Bool
  pub less : SemverVersion → SemverVersion → Bool

abbrev pub semver_core : SemverVersion → List ℕ
semver_core v = v.major ∷ v.minor ∷ v.patch ∷ []

-- Precedence: `<` is a strict weak order with `==` for the rest, and decides by major, minor and patch
-- first.
pub record PrecedenceLaws (sv : Semver) : Type 0 where
  pub less-asym : (a b : SemverVersion) → sv.less a b ≡ true → sv.less b a ≡ false
  pub less-trans :
      (a b c : SemverVersion) → sv.less a b ≡ true → sv.less b c ≡ true → sv.less a c ≡ true
  pub less-equal : (a b : SemverVersion) → sv.less a b ≡ true → sv.equal a b ≡ false
  pub equal-comm : (a b : SemverVersion) → sv.equal a b ≡ sv.equal b a
  pub equal-total :
      (a b : SemverVersion) → sv.less a b ≡ false → sv.less b a ≡ false → sv.equal a b ≡ true
  pub less-core :
      (a b : SemverVersion) → lex_lt (semver_core a) (semver_core b) ≡ true → sv.less a b ≡ true
  pub less-not_trans :
      (a b c : SemverVersion) → sv.less b a ≡ false → sv.less c b ≡ false → sv.less c a ≡ false
