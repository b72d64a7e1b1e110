-- ===== src/Package/FuzzyReference/RoundTrip.antt =====
-- Fuzzy references and their texts.
use linyaps.Prelude.{
  ◌≡◌, ◌≢◌, refl, Bool, true, false, ◌||◌, Option, none, some, Text, codes, lacks, is_empty,
  text_eq, arith, Bool-cases, inl, inr, subst,
}
use linyaps.Error.{ok, >>=-eq-ok, or_fail, or_fail-eq-ok, ok-injective, invalid_fuzzy_reference}
use linyaps.Package.Architecture
use linyaps.Package.Architecture.{Architecture, unknow}
use linyaps.Package.Architecture.Names.{parse_iff}
use linyaps.Package.FuzzyReference.Match.{
  Captured, IsWhole, match_whole, match_whole-written, match_whole-IsWhole,
}
use linyaps.Package.FuzzyReference.{
  FuzzyReference, create, parse, to_string, given, parse_arch, or_unknown, arch_or_unknown,
  empty_given,
}

-- A part that is not empty, does not say `unknown`, and lacks the separator.
abbrev pub IsGiven : Option Text → (Text → Bool) → Type 0
IsGiven none p = Unit
IsGiven (some t) p = (given t ≡ some t) × (p t ≡ true)

abbrev pub IsKnown : Option Architecture → Type 0
IsKnown none = Unit
IsKnown (some a) = a ≢ unknow

-- The fuzzy references that `parse` gives.
pub record IsReadable (f : FuzzyReference) : Type 0 where
  pub channel : IsGiven f.channel (lacks b':')
  pub id : (is_empty f.id ≡ false) × (lacks b'/' f.id ≡ true)
  pub version : IsGiven f.version (lacks b'/')
  pub arch : IsKnown f.arch

abbrev captured : FuzzyReference → Captured
captured f = record {
  channel = or_unknown f.channel;
  id = f.id;
  version = or_unknown f.version;
  architecture = arch_or_unknown f.arch;
}

given-or_unknown :
    (o : Option Text) (p : Text → Bool)
    → p (codes "unknown") ≡ true
    → IsGiven o p
    → (given (or_unknown o) ≡ o) × (p (or_unknown o) ≡ true)
unfolding given or_unknown text_eq
given-or_unknown none p u h = (refl, u)
given-or_unknown (some t) p u h = h

empty_given-IsGiven : (o : Option Text) (p : Text → Bool) → IsGiven o p → empty_given o ≡ false
unfolding empty_given given
empty_given-IsGiven none p h = refl
empty_given-IsGiven (some t) p h = ground arith

arch-or_unknown :
    (o : Option Architecture)
    → IsKnown o
    → (parse_arch (given (arch_or_unknown o)) ≡ ok o) × (lacks b'/' (arch_or_unknown o) ≡ true)
unfolding parse_arch given arch_or_unknown text_eq Architecture.parse Architecture.to_string
arch-or_unknown none h = (refl, refl)
arch-or_unknown (some unknow) h = absurd (h refl)
arch-or_unknown (some a) h = (refl, refl)

-- A fuzzy reference is read back from its text, if its identifier is neither empty nor has a slash,
-- its channel and its version, where given, are neither empty nor `unknown` and have no colon and
-- no slash, and its architecture, where given, is a known one.
pub parse_fuzzy-to_string : (f : FuzzyReference) → IsReadable f → parse (to_string f) ≡ ok f
unfolding parse to_string create
parse_fuzzy-to_string f h =
    let (c1, c2) = given-or_unknown f.channel (lacks b':') refl h.channel in
    let (v1, v2) = given-or_unknown f.version (lacks b'/') refl h.version in
    let (a1, a2) = arch-or_unknown f.arch h.arch in
    let w : IsWhole (captured f) = record {
      channel = c2;
      id = h.id.1;
      version = v2;
      architecture = a2;
    } in
    rw (match_whole-written (captured f) w)
      (rw (a1, c1, v1, empty_given-IsGiven f.channel (lacks b':') h.channel, h.id.0))

given-IsGiven : (t : Text) (p : Text → Bool) → p t ≡ true → IsGiven (given t) p
unfolding given
given-IsGiven t p h = elim (Bool-cases (is_empty t || text_eq t (codes "unknown"))) [
  | inl e ↦ rw e tt
  | inr e ↦ rw e (rw e, h)
]

parse_arch-IsKnown : (o : Option Text) (a : Option Architecture) → parse_arch o ≡ ok a → IsKnown a
unfolding parse_arch
parse_arch-IsKnown o none h = tt
parse_arch-IsKnown none (some a) h = cc
parse_arch-IsKnown (some t) (some a) h =
    let (b, p, q) = >>=-eq-ok (Architecture.parse t) _ h in
    let same : b ≡ a = cc q in subst (λ x. x ≢ unknow) same ((parse_iff t b).0 p).0

create-IsReadable :
    (c : Option Text) (i : Text) (v : Option Text) (a : Option Architecture) (f : FuzzyReference)
    → IsGiven c (lacks b':')
    → lacks b'/' i ≡ true
    → IsGiven v (lacks b'/')
    → IsKnown a
    → create c i v a ≡ ok f
    → IsReadable f
unfolding create
create-IsReadable c i v a f hc hi hv ha h = elim (Bool-cases (is_empty i)) [
  | inl e ↦ absurd (ground (arith, empty_given-IsGiven c (lacks b':') hc))
  | inr e ↦
      subst IsReadable (ok-injective (rw (empty_given-IsGiven c (lacks b':') hc, e) at h))
        (record { channel = hc; id = (e, hi); version = hv; arch = ha })
]

-- A fuzzy reference that was read has an identifier that is neither empty nor has a slash, a
-- channel and a version that, where given, are neither empty nor `unknown` and have no colon and no
-- slash, and an architecture that, where given, is a known one.
pub parse-IsReadable : (raw : Text) (f : FuzzyReference) → parse raw ≡ ok f → IsReadable f
unfolding parse
parse-IsReadable raw f h =
    let (m, p, h1) = >>=-eq-ok (or_fail invalid_fuzzy_reference (match_whole raw)) _ h in
    let w = match_whole-IsWhole raw m (or_fail-eq-ok _ _ p) in
    let (a, p1, h2) = >>=-eq-ok (parse_arch (given m.architecture)) _ h1 in
    create-IsReadable (given m.channel) m.id (given m.version) a f
      (given-IsGiven m.channel (lacks b':') w.channel) w.id
      (given-IsGiven m.version (lacks b'/') w.version)
      (parse_arch-IsKnown (given m.architecture) a p1) h2
