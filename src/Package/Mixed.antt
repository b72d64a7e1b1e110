-- ===== src/Package/Mixed.antt =====
-- The comparisons of a `VersionV1` or a `VersionV2` with a `FallbackVersion`, of versionv1.cpp and
-- versionv2.cpp, and of a `FallbackVersion` with either, of fallback_version.cpp.
use linyaps.Prelude.{Bool, not, ◌&&◌, is_zero, is_positive}
use linyaps.Qt.{Qt}
use linyaps.Semver.{Semver}
use linyaps.Package.VersionV1
use linyaps.Package.VersionV1.{VersionV1}
use linyaps.Package.VersionV2
use linyaps.Package.VersionV2.{VersionV2}
use linyaps.Package.FallbackVersion.{FallbackVersion, compare_with_other_version}

module _ (qt : Qt) where
  unfoldable pub eq1f : VersionV1 → FallbackVersion → Bool
  unfolding VersionV1.to_string compare_with_other_version
  eq1f v1 fv = is_zero (compare_with_other_version qt fv (VersionV1.to_string qt v1))

  unfoldable pub ne1f : VersionV1 → FallbackVersion → Bool
  unfolding eq1f
  ne1f v1 fv = not (eq1f v1 fv)

  unfoldable pub lt1f : VersionV1 → FallbackVersion → Bool
  unfolding VersionV1.to_string compare_with_other_version
  lt1f v1 fv = is_positive (compare_with_other_version qt fv (VersionV1.to_string qt v1))

  unfoldable pub gt1f : VersionV1 → FallbackVersion → Bool
  unfolding eq1f lt1f
  gt1f v1 fv = not (eq1f v1 fv) && not (lt1f v1 fv)

  unfoldable pub le1f : VersionV1 → FallbackVersion → Bool
  unfolding gt1f
  le1f v1 fv = not (gt1f v1 fv)

  unfoldable pub ge1f : VersionV1 → FallbackVersion → Bool
  unfolding lt1f
  ge1f v1 fv = not (lt1f v1 fv)

  unfoldable pub eqf1 : FallbackVersion → VersionV1 → Bool
  unfolding eq1f
  eqf1 fv v1 = eq1f v1 fv

  unfoldable pub nef1 : FallbackVersion → VersionV1 → Bool
  unfolding ne1f
  nef1 fv v1 = ne1f v1 fv

  unfoldable pub gtf1 : FallbackVersion → VersionV1 → Bool
  unfolding lt1f
  gtf1 fv v1 = lt1f v1 fv

  unfoldable pub ltf1 : FallbackVersion → VersionV1 → Bool
  unfolding gt1f
  ltf1 fv v1 = gt1f v1 fv

  unfoldable pub gef1 : FallbackVersion → VersionV1 → Bool
  unfolding le1f
  gef1 fv v1 = le1f v1 fv

  unfoldable pub lef1 : FallbackVersion → VersionV1 → Bool
  unfolding ge1f
  lef1 fv v1 = ge1f v1 fv

  unfoldable pub eq2f : Semver → VersionV2 → FallbackVersion → Bool
  unfolding VersionV2.to_string compare_with_other_version
  eq2f sv v2 fv = is_zero (compare_with_other_version qt fv (VersionV2.to_string sv v2))

  unfoldable pub ne2f : Semver → VersionV2 → FallbackVersion → Bool
  unfolding eq2f
  ne2f sv v2 fv = not (eq2f sv v2 fv)

  unfoldable pub lt2f : Semver → VersionV2 → FallbackVersion → Bool
  unfolding VersionV2.to_string compare_with_other_version
  lt2f sv v2 fv = is_positive (compare_with_other_version qt fv (VersionV2.to_string sv v2))

  unfoldable pub gt2f : Semver → VersionV2 → FallbackVersion → Bool
  unfolding eq2f lt2f
  gt2f sv v2 fv = not (eq2f sv v2 fv) && not (lt2f sv v2 fv)

  unfoldable pub le2f : Semver → VersionV2 → FallbackVersion → Bool
  unfolding gt2f
  le2f sv v2 fv = not (gt2f sv v2 fv)

  unfoldable pub ge2f : Semver → VersionV2 → FallbackVersion → Bool
  unfolding lt2f
  ge2f sv v2 fv = not (lt2f sv v2 fv)

  unfoldable pub eqf2 : Semver → FallbackVersion → VersionV2 → Bool
  unfolding eq2f
  eqf2 sv fv v2 = eq2f sv v2 fv

  unfoldable pub nef2 : Semver → FallbackVersion → VersionV2 → Bool
  unfolding ne2f
  nef2 sv fv v2 = ne2f sv v2 fv

  unfoldable pub gtf2 : Semver → FallbackVersion → VersionV2 → Bool
  unfolding lt2f
  gtf2 sv fv v2 = lt2f sv v2 fv

  unfoldable pub ltf2 : Semver → FallbackVersion → VersionV2 → Bool
  unfolding gt2f
  ltf2 sv fv v2 = gt2f sv v2 fv

  unfoldable pub gef2 : Semver → FallbackVersion → VersionV2 → Bool
  unfolding le2f
  gef2 sv fv v2 = le2f sv v2 fv

  unfoldable pub lef2 : Semver → FallbackVersion → VersionV2 → Bool
  unfolding ge2f
  lef2 sv fv v2 = ge2f sv v2 fv
