-- ===== src/Samples/Versions.antt =====
-- The theorems on texts and versions at concrete inputs.
use linyaps.Prelude.{
  negsuc, pos, ℕ, ◌<◌, ◌^◌, ◌≡◌, ◌↔◌, ◌⊎◌, refl, true, false, not, none, some, [], ◌∷◌, ◌++◌, Text,
  codes, lex_lt, arith, is_some, text_eq,
}
use linyaps.Error.{ok, err, parse_version_failed}
use linyaps.Utils.BashQuote.{quote_bash_arg}
use linyaps.Utils.BashQuote.Unquote.{outside, unquote, unquote-quote_bash_arg}
use linyaps.Package.Pattern.{match_v1}
use linyaps.Package.VersionV1
use linyaps.Package.VersionV1.{VersionV1, Fits, tie}
use linyaps.Package.VersionV1.Order.{ExactlyOne, incomparable}
use linyaps.Package.VersionV1.RoundTrip
use linyaps.Package.VersionV2.{VersionV2}
use linyaps.Package.FallbackVersion
use linyaps.Package.FallbackVersion.{FallbackVersion}
use linyaps.Package.FallbackVersion.Parts.{IsParts}
use linyaps.Package.FallbackVersion.Compare
use linyaps.Package.FallbackVersion.Compare.{single}
use linyaps.Package.Version
use linyaps.Package.Version.{
  Version, version_v1, version_v2, fallback_version, default_options, lt, eq, gt, le, ge, has_tweak,
}
use linyaps.Package.Version.Order.{Fits2, lt_trans, trichotomy}
use linyaps.Package.Version.Parse.{only_dots, parse-fails_iff}
use linyaps.Samples.QtTexts.{
  sample_qt, sample_numbers, sample_splits, sample_compares, to_long_long, to_int, compare_texts,
}
use linyaps.Samples.Precedence.{sample_semver, sample_precedence, parse}

abbrev pub four : ℕ → VersionV1
four tweak = record { major = 1; minor = 2; patch = 3; tweak = some tweak }

abbrev pub three : VersionV1
three = record { major = 1; minor = 2; patch = 3; tweak = none }

abbrev pub semantic : ℕ → VersionV2
semantic patch = record {
  major = 1;
  minor = 2;
  patch = patch;
  prerelease = [];
  build_meta = [];
  security = 0;
  has_patch = true;
}

pub semantic_fits : (patch : ℕ) → patch < 2 ^ 63 → Fits2 (semantic patch)
semantic_fits patch h = record { major = omega arith; minor = omega arith; patch = h }

four-Fits : Fits (four 4)
four-Fits = record {
  major = omega arith;
  minor = omega arith;
  patch = omega arith;
  tweak = omega arith;
}

lt_trans_example :
    lt sample_qt sample_semver (version_v2 (semantic 3)) (version_v2 (semantic 5)) ≡ true
unfolding lt linyaps.Package.VersionV2.lt21 text_eq lex_lt
lt_trans_example =
    lt_trans sample_qt sample_semver sample_precedence (version_v2 (semantic 3))
      (version_v1 (four 4)) (version_v2 (semantic 5)) (semantic_fits 3 (omega arith)) refl
      (semantic_fits 5 (omega arith)) refl refl

trichotomy_example :
    ExactlyOne
      (lt sample_qt sample_semver (version_v1 (four 4)) (version_v2 (semantic 3)))
      (eq sample_qt sample_semver (version_v1 (four 4)) (version_v2 (semantic 3)))
      (lt sample_qt sample_semver (version_v2 (semantic 3)) (version_v1 (four 4)))
    × (gt sample_qt sample_semver (version_v1 (four 4)) (version_v2 (semantic 3))
        ≡ lt sample_qt sample_semver (version_v2 (semantic 3)) (version_v1 (four 4)))
    × (le sample_qt sample_semver (version_v1 (four 4)) (version_v2 (semantic 3))
        ≡ not (gt sample_qt sample_semver (version_v1 (four 4)) (version_v2 (semantic 3))))
    × (ge sample_qt sample_semver (version_v1 (four 4)) (version_v2 (semantic 3))
        ≡ not (lt sample_qt sample_semver (version_v1 (four 4)) (version_v2 (semantic 3))))
trichotomy_example =
    trichotomy sample_qt sample_semver sample_precedence (version_v1 (four 4))
      (version_v2 (semantic 3)) refl (semantic_fits 3 (omega arith))

parse-to_string_example :
    VersionV1.parse sample_qt (VersionV1.to_string sample_qt (four 4)) ≡ ok (four 4)
parse-to_string_example =
    VersionV1.RoundTrip.parse-to_string sample_qt sample_numbers (four 4) four-Fits

to_string-parse_example :
    ((codes "1.2.3.4" ≡ VersionV1.to_string sample_qt (four 4))
      ⊎ (codes "1.2.3.4" ≡ VersionV1.to_string sample_qt (four 4) ++ 10 ∷ []))
    × Fits (four 4)
unfolding VersionV1.parse match_v1 to_long_long text_eq
to_string-parse_example =
    VersionV1.RoundTrip.to_string-parse sample_qt sample_numbers (codes "1.2.3.4") (four 4) refl

incomparable_example :
    (VersionV1.eq three (four 0) ≡ false)
    × (VersionV1.lt three (four 0) ≡ false)
    × (VersionV1.gt three (four 0) ≡ false)
    × (VersionV1.le three (four 0) ≡ false)
    × (VersionV1.ge three (four 0) ≡ false)
unfolding tie
incomparable_example = incomparable three (four 0) (λ e. cc) refl

parse-fails_iff_example :
    (Version.parse sample_qt sample_semver (codes "..") default_options ≡ err parse_version_failed)
    ↔ ((sample_semver.parse (codes "..") true ≡ none) × (only_dots (codes "..") ≡ true))
parse-fails_iff_example = parse-fails_iff sample_qt sample_semver sample_splits (codes "..")

-- The sample reads whatever `VersionV1` reads as three numbers.
accepts_three :
    (raw : Text) (v : VersionV1)
    → VersionV1.parse sample_qt raw ≡ ok v
    → v.tweak ≡ none
    → is_some (sample_semver.parse raw true) ≡ true
unfolding parse
accepts_three raw v h k = rw h (rw k refl)

parts_example : IsParts (record { list = codes "1" ∷ codes "b" ∷ [] })
parts_example = record { some_part = refl; parts = ((refl, refl), ((refl, refl), tt)) }

lt-lex_example :
    FallbackVersion.lt sample_qt
      (record { list = codes "1" ∷ codes "9" ∷ [] })
      (record { list = codes "1" ∷ codes "10" ∷ [] })
    ≡ lex_lt (1 ∷ 9 ∷ []) (1 ∷ 10 ∷ [])
unfolding to_int
lt-lex_example =
    FallbackVersion.Compare.lt-lex sample_qt sample_compares
      (record { list = codes "1" ∷ codes "9" ∷ [] }) (record { list = codes "1" ∷ codes "10" ∷ [] })
      (1 ∷ 9 ∷ []) (1 ∷ 10 ∷ []) ((refl, omega arith), ((refl, omega arith), tt))
      ((refl, omega arith), ((refl, omega arith), tt))

lt-circle_example :
    (FallbackVersion.lt sample_qt (single (codes "2")) (single (codes "10")) ≡ true)
    × (FallbackVersion.lt sample_qt (single (codes "10")) (single (codes "1b")) ≡ true)
    × (FallbackVersion.lt sample_qt (single (codes "1b")) (single (codes "2")) ≡ true)
unfolding to_int text_eq compare_texts
lt-circle_example =
    FallbackVersion.Compare.lt-circle sample_qt (codes "2") (codes "10") (codes "1b") 2 10
      (refl, omega arith) (refl, omega arith) (omega arith) refl refl refl refl refl

lt-first_number_example :
    (FallbackVersion.lt sample_qt
        (record { list = codes "1" ∷ codes "-2" ∷ [] })
        (record { list = codes "1" ∷ codes "10" ∷ codes "3" ∷ [] })
      ≡ true)
    × (FallbackVersion.gt sample_qt
          (record { list = codes "1" ∷ codes "-2" ∷ [] })
          (record { list = codes "1" ∷ codes "10" ∷ codes "3" ∷ [] })
        ≡ false)
unfolding to_int
lt-first_number_example =
    FallbackVersion.Compare.lt-first_number sample_qt (codes "1" ∷ []) [] (codes "3" ∷ [])
      (codes "-2") (codes "10") (negsuc 1) (pos 10) refl refl refl (omega arith, omega arith)

unquote-quote_bash_arg_example :
    unquote outside (quote_bash_arg (codes "let's go")) ≡ some (codes "let's go")
unquote-quote_bash_arg_example = unquote-quote_bash_arg (codes "let's go")
