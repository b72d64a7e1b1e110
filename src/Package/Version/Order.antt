-- ===== src/Package/Version/Order.antt =====
-- The order of versions that are semantic versions or have four numbers.
use linyaps.Prelude.{
  ℕ, ◌<◌, ◌^◌, ◌≡◌, refl, sym, ◌∙◌, Bool, true, false, not, ◌&&◌, ◌||◌, List, [], is_some, arith,
  text_eq, text_eq→eq, lex_lt, lex_lt_irrefl, lex_lt-asym, lex_lt-le_trans, lex_le-lt_trans,
  lex_le_trans,
}
use linyaps.Qt.{Qt}
use linyaps.Semver.{Semver, SemverVersion, PrecedenceLaws, semver_core}
use linyaps.Package.VersionV1
use linyaps.Package.VersionV1.Order
use linyaps.Package.VersionV1.Order.{ExactlyOne}
use linyaps.Package.VersionV1.{VersionV1, Fits, signed, tie}
use linyaps.Package.VersionV2
use linyaps.Package.VersionV2.{VersionV2, to_semver, core1, core2, eq12, lt12, gt12, eq21, lt21}
use linyaps.Package.Version.{Version, version_v1, version_v2, fallback_version, eq, lt, gt, le, ge}

-- The numbers of a semantic version fit 63 bits.
pub record Fits2 (v : VersionV2) : Type 0 where
  pub major : v.major < 2 ^ 63
  pub minor : v.minor < 2 ^ 63
  pub patch : v.patch < 2 ^ 63

-- A semantic version whose numbers fit 63 bits, or a version of four numbers.
abbrev pub IsOrdered : Version → Type 0
IsOrdered (version_v2 v) = Fits2 v
IsOrdered (version_v1 v) = is_some v.tweak ≡ true
IsOrdered (fallback_version v) = ⊥

-- Major, minor and patch, placed as the signed values are.
abbrev core : Version → List ℕ
core (version_v2 v) = core2 v
core (version_v1 v) = core1 v
core (fallback_version v) = []

core2-lt :
    (a b : VersionV2)
    → Fits2 a
    → Fits2 b
    → lex_lt (core2 a) (core2 b) ≡ lex_lt (semver_core (to_semver a)) (semver_core (to_semver b))
unfolding core2 to_semver lex_lt
core2-lt a b h k = ground arith

V1-core-lt : (a b : VersionV1) → lex_lt (core1 a) (core1 b) ≡ true → VersionV1.lt a b ≡ true
unfolding core1 VersionV1.lt lex_lt
V1-core-lt a b h = ground arith

V1-lt-core : (a b : VersionV1) → VersionV1.lt a b ≡ true → lex_lt (core1 b) (core1 a) ≡ false
V1-lt-core a b h = ground (arith, V1-core-lt b a, VersionV1.Order.lt-asym a b h)

lt12-core :
    (a : VersionV1) (b : VersionV2) → is_some a.tweak ≡ true → lt12 a b ≡ lex_lt (core1 a) (core2 b)
unfolding lt12
lt12-core a b h = ground arith

lt21-core :
    (a : VersionV2) (b : VersionV1)
    → is_some b.tweak ≡ true
    → lt21 a b ≡ not (lex_lt (core1 b) (core2 a))
unfolding lt21 eq12 lt12
lt21-core a b h = ground arith

-- A version of four numbers is below a semantic version only by major, minor and patch, and a
-- semantic version is below it unless those are greater.
strict :
    (a : VersionV1) (b : VersionV2)
    → is_some a.tweak ≡ true
    → lt12 a b ≡ true
    → lex_lt (core1 a) (core2 b) ≡ true
strict a b h e = cc (lt12-core a b h)

below :
    (a : VersionV2) (b : VersionV1)
    → is_some b.tweak ≡ true
    → lex_lt (core1 b) (core2 a) ≡ false
    → lt21 a b ≡ true
below a b h e = ground (arith, lt21-core a b h)

ExactlyOne-swap : (a b c : Bool) → ExactlyOne a b c → ExactlyOne c b a
ExactlyOne-swap a b c h = ground arith

one_tests :
    (l e g : Bool) → ExactlyOne l e g → ((not e && not l) ≡ g) × ((e || l) ≡ not (not e && not l))
one_tests l e g h = ground arith

eq-not_lt : (xs ys : List ℕ) → text_eq xs ys ≡ true → lex_lt xs ys ≡ false
eq-not_lt xs ys h = rw (text_eq→eq xs ys h) (lex_lt_irrefl ys)

mixed_one : (a : VersionV1) (b : VersionV2) → ExactlyOne (lt12 a b) (eq12 a b) (gt12 a b)
unfolding lt12 eq12 gt12
mixed_one a b = ground (arith, eq-not_lt (core1 a) (core2 b))

module _ (qt : Qt) (sv : Semver) (laws : PrecedenceLaws sv) where
  semver_one : (a b : SemverVersion) → ExactlyOne (sv.less a b) (sv.equal a b) (sv.less b a)
  semver_one a b = ground (
    arith,
    laws.less-asym a b,
    laws.less-equal a b,
    laws.less-equal b a,
    laws.equal-total a b,
    laws.equal-comm a b,
  )

  V2-core-lt :
      (a b : VersionV2)
      → Fits2 a
      → Fits2 b
      → lex_lt (core2 a) (core2 b) ≡ true
      → VersionV2.lt sv a b ≡ true
  unfolding VersionV2.lt
  V2-core-lt a b h k e = laws.less-core (to_semver a) (to_semver b) (cc (core2-lt a b h k))

  V2-lt-core :
      (a b : VersionV2)
      → Fits2 a
      → Fits2 b
      → VersionV2.lt sv a b ≡ true
      → lex_lt (core2 b) (core2 a) ≡ false
  unfolding VersionV2.lt
  V2-lt-core a b h k e =
      ground (arith, V2-core-lt b a k h, laws.less-asym (to_semver a) (to_semver b) e)

  -- `operator<` of such versions decides by major, minor and patch first.
  core-lt :
      (a b : Version)
      → IsOrdered a
      → IsOrdered b
      → lex_lt (core a) (core b) ≡ true
      → lt qt sv a b ≡ true
  unfolding lt
  core-lt (version_v2 a) (version_v2 b) h k e = V2-core-lt a b h k e
  core-lt (version_v2 a) (version_v1 b) h k e =
      ground (arith, lt21-core a b k, lex_lt-asym (core2 a) (core1 b) e)
  core-lt (version_v2 a) (fallback_version b) h k e = absurd k
  core-lt (version_v1 a) (version_v2 b) h k e = ground (arith, lt12-core a b h)
  core-lt (version_v1 a) (version_v1 b) h k e = V1-core-lt a b e
  core-lt (version_v1 a) (fallback_version b) h k e = absurd k
  core-lt (fallback_version a) b h k e = absurd h

  lt-core :
      (a b : Version)
      → IsOrdered a
      → IsOrdered b
      → lt qt sv a b ≡ true
      → lex_lt (core b) (core a) ≡ false
  unfolding lt
  lt-core (version_v2 a) (version_v2 b) h k e = V2-lt-core a b h k e
  lt-core (version_v2 a) (version_v1 b) h k e = ground (arith, lt21-core a b k)
  lt-core (version_v2 a) (fallback_version b) h k e = absurd k
  lt-core (version_v1 a) (version_v2 b) h k e =
      ground (arith, lt12-core a b h, lex_lt-asym (core1 a) (core2 b))
  lt-core (version_v1 a) (version_v1 b) h k e = V1-lt-core a b e
  lt-core (version_v1 a) (fallback_version b) h k e = absurd k
  lt-core (fallback_version a) b h k e = absurd h

  -- `operator<` of `Version` is transitive on semantic versions whose numbers fit 63 bits and
  -- `VersionV1`s with a tweak, of whichever of the two kinds each of the three is.
  pub lt_trans :
      (a b c : Version)
      → IsOrdered a
      → IsOrdered b
      → IsOrdered c
      → lt qt sv a b ≡ true
      → lt qt sv b c ≡ true
      → lt qt sv a c ≡ true
  lt_trans (version_v2 a) (version_v2 b) (version_v2 c) h k l p q =
      unfold lt VersionV2.lt in laws.less-trans (to_semver a) (to_semver b) (to_semver c) p q
  lt_trans (version_v1 a) (version_v1 b) (version_v1 c) h k l p q =
      unfold lt in VersionV1.Order.lt_trans a b c p q
  lt_trans (version_v1 a) (version_v2 b) c h k l p q = core-lt (version_v1 a) c h l (
      lex_lt-le_trans (core1 a) (core2 b) (core c) (strict a b h (unfold lt in p))
        (lt-core (version_v2 b) c k l q))
  lt_trans a (version_v1 b) (version_v2 c) h k l p q = core-lt a (version_v2 c) h l (
      lex_le-lt_trans (core a) (core1 b) (core2 c) (lt-core a (version_v1 b) h k p)
        (strict b c k (unfold lt in q)))
  lt_trans (version_v2 a) b (version_v1 c) h k l p q =
      unfold lt in
      below a c l (
        lex_le_trans (core2 a) (core b) (core1 c) (lt-core (version_v2 a) b h k p)
          (lt-core b (version_v1 c) k l q))
  lt_trans (fallback_version a) b c h k l p q = absurd h
  lt_trans a (fallback_version b) c h k l p q = absurd k
  lt_trans a b (fallback_version c) h k l p q = absurd l

  one_of-eq :
      (a b : Version)
      → IsOrdered a
      → IsOrdered b
      → ExactlyOne (lt qt sv a b) (eq qt sv a b) (lt qt sv b a)
  unfolding lt eq VersionV2.lt VersionV2.eq lt21 eq21 VersionV1.lt lex_lt
  one_of-eq (version_v2 a) (version_v2 b) h k = semver_one (to_semver a) (to_semver b)
  one_of-eq (version_v1 a) (version_v1 b) h k =
      unfold VersionV1.gt in (VersionV1.Order.tweak-trichotomy a b (h ∙ sym k)).0
  one_of-eq (version_v2 a) (version_v1 b) h k =
      ExactlyOne-swap (lt12 b a) (eq12 b a) (gt12 b a) (mixed_one b a)
  one_of-eq (version_v1 a) (version_v2 b) h k = mixed_one a b
  one_of-eq (fallback_version a) b h k = absurd h
  one_of-eq a (fallback_version b) h k = absurd k

  -- Of two versions that are each a semantic version whose numbers fit 63 bits or a `VersionV1` with
  -- a tweak, exactly one of `<`, `==` and `<` the other way round holds; `>` is `<` the other way
  -- round, and `<=` and `>=` are the negations of `>` and `<`.
  pub trichotomy :
      (a b : Version)
      → IsOrdered a
      → IsOrdered b
      → ExactlyOne (lt qt sv a b) (eq qt sv a b) (lt qt sv b a)
        × (gt qt sv a b ≡ lt qt sv b a)
        × (le qt sv a b ≡ not (gt qt sv a b))
        × (ge qt sv a b ≡ not (lt qt sv a b))
  unfolding gt le ge
  trichotomy a b h k =
      let one = one_of-eq a b h k in
      let (g, l) = one_tests (lt qt sv a b) (eq qt sv a b) (lt qt sv b a) one in (one, g, l, refl)

  -- What is not below another is not below it by major, minor and patch.
  not_below :
      (a b : Version)
      → IsOrdered a
      → IsOrdered b
      → lt qt sv b a ≡ false
      → lex_lt (core b) (core a) ≡ false
  not_below a b h k p = ground (arith, core-lt b a k h)

  not_lt :
      (a c : Version)
      → IsOrdered a
      → IsOrdered c
      → lex_lt (core a) (core c) ≡ true
      → lt qt sv c a ≡ false
  not_lt a c h l e = ground (arith, lt-core c a l h)

  above_semantic :
      (a : VersionV1) (b : VersionV2)
      → is_some a.tweak ≡ true
      → lt qt sv (version_v2 b) (version_v1 a) ≡ false
      → lex_lt (core1 a) (core2 b) ≡ true
  unfolding lt
  above_semantic a b h p = ground (arith, lt21-core b a h)

  -- What is not below the second is not below what the second is not below.
  pub lt-not_trans :
      (a b c : Version)
      → IsOrdered a
      → IsOrdered b
      → IsOrdered c
      → lt qt sv b a ≡ false
      → lt qt sv c b ≡ false
      → lt qt sv c a ≡ false
  lt-not_trans (version_v2 a) (version_v2 b) (version_v2 c) h k l p q =
      unfold lt VersionV2.lt in laws.less-not_trans (to_semver a) (to_semver b) (to_semver c) p q
  lt-not_trans (version_v1 a) (version_v1 b) (version_v1 c) h k l p q =
      unfold lt VersionV1.lt in lex_le_trans (tie a) (tie b) (tie c) p q
  lt-not_trans a (version_v1 b) (version_v2 c) h k l p q =
      let less =
        lex_le-lt_trans (core a) (core1 b) (core2 c) (not_below a (version_v1 b) h k p)
          (above_semantic b c k q) in
      not_lt a (version_v2 c) h l less
  lt-not_trans (version_v2 a) b (version_v1 c) h k l p q =
      unfold lt in
      lt12-core c a l
      ∙ lex_le_trans (core2 a) (core b) (core1 c) (not_below (version_v2 a) b h k p)
          (not_below b (version_v1 c) k l q)
  lt-not_trans (version_v1 a) (version_v2 b) c h k l p q =
      let above = above_semantic a b h p in
      let below_c = not_below (version_v2 b) c k l q in
      not_lt (version_v1 a) c h l (lex_lt-le_trans (core1 a) (core2 b) (core c) above below_c)
  lt-not_trans (fallback_version a) b c h k l p q = absurd h
  lt-not_trans a (fallback_version b) c h k l p q = absurd k
  lt-not_trans a b (fallback_version c) h k l p q = absurd l
