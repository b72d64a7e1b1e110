-- ===== src/Samples/References.antt =====
-- The theorems on references at concrete inputs.
use linyaps.Prelude.{
  ◌≡◌, ◌≢◌, ◌↔◌, refl, Bool, true, false, Option, none, some, [], ◌∷◌, ◌++◌, codes, arith,
}
use linyaps.Error.{ok}
use linyaps.Package.Architecture
use linyaps.Package.Architecture.{Architecture, unknow, x86_64}
use linyaps.Package.Version
use linyaps.Package.Version.{version_v1}
use linyaps.Package.Reference
use linyaps.Package.Reference.{Reference, to_variant_map, from_variant_map}
use linyaps.Package.Reference.RoundTrip
use linyaps.Package.Reference.RoundTrip.{
  IsSound, parse_reference-to_string, from_variant_map-to_variant_map, parse-IsSound,
}
use linyaps.Package.FuzzyReference
use linyaps.Package.FuzzyReference.{FuzzyReference}
use linyaps.Package.FuzzyReference.RoundTrip as FuzzyRoundTrip
use linyaps.Package.FuzzyReference.RoundTrip.{parse_fuzzy-to_string, parse-IsReadable}
use linyaps.Samples.QtTexts.{sample_qt}
use linyaps.Samples.Precedence.{sample_semver}
use linyaps.Samples.Versions.{four}

abbrev org_a : Reference
org_a = record {
  channel = codes "main";
  id = codes "org.a";
  version = version_v1 (four 4);
  arch = x86_64;
}

abbrev fuzzy_a : FuzzyReference
fuzzy_a = record {
  channel = none;
  id = codes "org.a";
  version = some (codes "1.2");
  arch = some x86_64;
}

known : x86_64 ≢ unknow
known e = cc

org_a-IsReadable : RoundTrip.IsReadable sample_qt sample_semver org_a
unfolding Version.to_string linyaps.Package.VersionV1.to_string linyaps.Samples.QtTexts.number
    Version.parse linyaps.Package.VersionV2.parse linyaps.Samples.Precedence.parse
    linyaps.Package.Pattern.match_v1 linyaps.Samples.QtTexts.to_long_long linyaps.Prelude.text_eq
org_a-IsReadable = record {
  channel = (refl, refl);
  id = (refl, refl);
  version_text = (refl, refl);
  version = refl;
  arch = known;
}

fuzzy_a-IsReadable : FuzzyRoundTrip.IsReadable fuzzy_a
unfolding FuzzyReference.given linyaps.Prelude.text_eq
fuzzy_a-IsReadable = record {
  channel = tt;
  id = (refl, refl);
  version = (refl, refl);
  arch = known;
}

parse_reference-to_string_example :
    Reference.parse sample_qt sample_semver
      (Reference.to_string sample_qt sample_semver org_a ++ codes "/and/more")
    ≡ ok org_a
parse_reference-to_string_example =
    parse_reference-to_string sample_qt sample_semver org_a (codes "/and/more") org_a-IsReadable
      refl

parse-IsSound_example : IsSound sample_qt sample_semver org_a
unfolding Reference.parse linyaps.Package.Reference.Match.search linyaps.Package.Fields.run_some
    linyaps.Package.Fields.separator Version.parse linyaps.Package.VersionV2.parse
    linyaps.Samples.Precedence.parse linyaps.Package.Pattern.match_v1
    linyaps.Samples.QtTexts.to_long_long linyaps.Prelude.text_eq Architecture.parse
parse-IsSound_example =
    parse-IsSound sample_qt sample_semver (codes "main:org.a/1.2.3.4/x86_64") org_a refl

parse_fuzzy-to_string_example : FuzzyReference.parse (FuzzyReference.to_string fuzzy_a) ≡ ok fuzzy_a
parse_fuzzy-to_string_example = parse_fuzzy-to_string fuzzy_a fuzzy_a-IsReadable
