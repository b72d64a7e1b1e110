-- ===== src/Package/VersionV1/Order.antt =====
-- The comparisons of two `VersionV1`.
use linyaps.Prelude.{
  ◌≡◌, ◌≢◌, Bool, true, false, not, ◌&&◌, ◌||◌, is_some, arith, text_eq_refl, text_eq→eq,
  lex_lt_irrefl, lex_lt-asym, lex_lt-total, lex_lt_trans,
}
use linyaps.Package.VersionV1.{VersionV1, tie, eq, lt, gt, le, ge}

-- `operator<` is a strict order: never both ways, and transitive.
pub lt-asym : (u v : VersionV1) → lt u v ≡ true → lt v u ≡ false
unfolding lt
lt-asym u v h = lex_lt-asym (tie u) (tie v) h

pub lt_trans : (u v w : VersionV1) → lt u v ≡ true → lt v w ≡ true → lt u w ≡ true
unfolding lt
lt_trans u v w h k = lex_lt_trans (tie u) (tie v) (tie w) h k

-- Exactly one of three tests holds.
abbrev pub ExactlyOne : Bool → Bool → Bool → Type 0
ExactlyOne a b c =
    ((a || b || c) ≡ true) × ((a && b) ≡ false) × ((a && c) ≡ false) × ((b && c) ≡ false)

-- Of two `VersionV1`s that both have a tweak, or both have none, exactly one of `<`, `==` and `>`
-- holds, and `<=` and `>=` are the negations of `>` and `<`.
pub tweak-trichotomy :
    (u v : VersionV1)
    → is_some u.tweak ≡ is_some v.tweak
    → ExactlyOne (lt u v) (eq u v) (gt u v) × (le u v ≡ not (gt u v)) × (ge u v ≡ not (lt u v))
unfolding lt gt eq le ge
tweak-trichotomy u v h = ground (
  arith,
  text_eq→eq (tie u) (tie v),
  text_eq_refl (tie u),
  lex_lt-total (tie u) (tie v),
  lex_lt-asym (tie u) (tie v),
  lex_lt_irrefl (tie u),
  lex_lt_irrefl (tie v),
)

-- Of two `VersionV1`s of which only one has a tweak, and whose numbers agree if a missing tweak is
-- counted as 0, none of `==`, `<`, `>`, `<=` and `>=` holds.
pub incomparable :
    (u v : VersionV1)
    → is_some u.tweak ≢ is_some v.tweak
    → tie u ≡ tie v
    → (eq u v ≡ false) × (lt u v ≡ false) × (gt u v ≡ false) × (le u v ≡ false) × (ge u v ≡ false)
unfolding lt gt eq le ge
incomparable u v h e = ground (arith, lex_lt_irrefl (tie u))
