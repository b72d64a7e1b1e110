-- ===== src/Package/VersionV1/RoundTrip.antt =====
-- `VersionV1::parse` and `VersionV1::toString` undo each other.
use linyaps.Prelude.{
  ℕ, ◌<◌, ◌^◌, ◌≡◌, ◌⊎◌, inl, inr, sym, ap, refl, ◌∙◌, Option, none, some, [], ◌∷◌, ◌++◌,
  append-nil, Text, subst, true,
}
use linyaps.Error.{
  ok, or_fail, >>=-eq-ok, or_fail-eq-ok, ok-injective, Error, regexp_mismatched, major_too_large,
  minor_too_large, patch_too_large, tweak_too_large,
}
use linyaps.Qt.{Qt, NumberLaws, is_numeral}
use linyaps.Package.Pattern.{
  Captured, match_v1, dotted, dotted_tail, IsNumerals, IsNumeralTail, IsEnd, match_v1-dotted,
  match_v1_sound,
}
use linyaps.Package.VersionV1.{VersionV1, Fits, TweakFits, parse, to_string, read_tweak, tweak_text}

tweak_capture : Qt → Option ℕ → Option Text
tweak_capture qt none = none
tweak_capture qt (some n) = some (qt.number n)

abbrev captured : Qt → VersionV1 → Captured
captured qt v = record {
  c1 = qt.number v.major;
  c2 = qt.number v.minor;
  c3 = qt.number v.patch;
  c4 = tweak_capture qt v.tweak;
}

module _ (qt : Qt) (laws : NumberLaws qt) where
  tweak_capture-IsNumeralTail : (t : Option ℕ) → IsNumeralTail (tweak_capture qt t)
  unfolding tweak_capture
  tweak_capture-IsNumeralTail none = tt
  tweak_capture-IsNumeralTail (some n) = laws.number-is_numeral n

  captured-IsNumerals : (v : VersionV1) → IsNumerals (captured qt v)
  captured-IsNumerals v = record {
    n1 = laws.number-is_numeral v.major;
    n2 = laws.number-is_numeral v.minor;
    n3 = laws.number-is_numeral v.patch;
    n4 = tweak_capture-IsNumeralTail v.tweak;
  }

  tweak_text-dotted : (t : Option ℕ) → tweak_text qt t ≡ dotted_tail (tweak_capture qt t)
  unfolding tweak_text tweak_capture
  tweak_text-dotted none = refl
  tweak_text-dotted (some n) = refl

  to_string-dotted : (v : VersionV1) → to_string qt v ≡ dotted (captured qt v)
  unfolding to_string
  to_string-dotted v = rw (tweak_text-dotted v.tweak)

  read_tweak-capture : (t : Option ℕ) → TweakFits t → read_tweak qt (tweak_capture qt t) ≡ ok t
  unfolding read_tweak tweak_capture
  read_tweak-capture none h = refl
  read_tweak-capture (some n) h = rw (laws.to_long_long-number n h)

  -- A `VersionV1` whose fields fit 63 bits is read back from its text.
  pub parse-to_string : (v : VersionV1) → Fits v → parse qt (to_string qt v) ≡ ok v
  unfolding parse
  parse-to_string v fits =
      rw (to_string-dotted v, match_v1-dotted (captured qt v) (captured-IsNumerals v))
        (rw (
          laws.to_long_long-number v.major fits.major,
          laws.to_long_long-number v.minor fits.minor,
          laws.to_long_long-number v.patch fits.patch,
          read_tweak-capture v.tweak fits.tweak,
        ))

  read_numeral_sound :
      (e : Error) (s : Text) (n : ℕ)
      → is_numeral s ≡ true
      → or_fail e (qt.to_long_long s) ≡ ok n
      → (qt.number n ≡ s) × (n < 2 ^ 63)
  read_numeral_sound e s n k h =
      let p = or_fail-eq-ok e (qt.to_long_long s) h in
      (laws.number-to_long_long s n k p, laws.to_long_long-lt s n p)

  read_tweak_sound :
      (c : Option Text) (t : Option ℕ)
      → IsNumeralTail c
      → read_tweak qt c ≡ ok t
      → (tweak_capture qt t ≡ c) × TweakFits t
  unfolding read_tweak tweak_capture
  read_tweak_sound none none n h = (refl, tt)
  read_tweak_sound none (some m) n h = absurd (cc)
  read_tweak_sound (some s) none n h =
      let (m, p, q) = >>=-eq-ok (or_fail tweak_too_large (qt.to_long_long s)) _ h in absurd (cc)
  read_tweak_sound (some s) (some m) n h =
      let (k, p, q) = >>=-eq-ok (or_fail tweak_too_large (qt.to_long_long s)) _ h in
      let same : k ≡ m = cc q in
      let (a, b) = read_numeral_sound tweak_too_large s m n (rw same at p) in (ap some a, b)

  -- What the text is, once the version's fields are what was captured.
  text_of_captured :
      (raw rest : Text) (v : VersionV1) (m : Captured)
      → raw ≡ dotted m ++ rest
      → IsEnd rest
      → captured qt v ≡ m
      → (raw ≡ to_string qt v) ⊎ (raw ≡ to_string qt v ++ 10 ∷ [])
  text_of_captured raw rest v m e (inl none_left) same =
      inl (rw (e, none_left) (append-nil (dotted m)) ∙ text)
    where
      text : dotted m ≡ to_string qt v
      text = ap dotted (sym same) ∙ sym (to_string-dotted v)
  text_of_captured raw rest v m e (inr newline) same =
      inr (rw (e, newline) (ap (λ t. t ++ 10 ∷ []) text))
    where
      text : dotted m ≡ to_string qt v
      text = ap dotted (sym same) ∙ sym (to_string-dotted v)

  -- A text that `VersionV1::parse` reads is the text of the version that it gives, maybe with a
  -- newline behind it, and the fields of that version fit 63 bits.
  pub to_string-parse :
      (raw : Text) (v : VersionV1)
      → parse qt raw ≡ ok v
      → ((raw ≡ to_string qt v) ⊎ (raw ≡ to_string qt v ++ 10 ∷ [])) × Fits v
  unfolding parse
  to_string-parse raw v h =
      let (m, p0, h0) = >>=-eq-ok (or_fail regexp_mismatched (match_v1 raw)) _ h in
      let (rest, e, end, n) = match_v1_sound raw m (or_fail-eq-ok _ _ p0) in
      let (a, p1, h1) = >>=-eq-ok (or_fail major_too_large (qt.to_long_long m.c1)) _ h0 in
      let (b, p2, h2) = >>=-eq-ok (or_fail minor_too_large (qt.to_long_long m.c2)) _ h1 in
      let (c, p3, h3) = >>=-eq-ok (or_fail patch_too_large (qt.to_long_long m.c3)) _ h2 in
      let (d, p4, h4) = >>=-eq-ok (read_tweak qt m.c4) _ h3 in
      let (e1, f1) = read_numeral_sound _ m.c1 a n.n1 p1 in
      let (e2, f2) = read_numeral_sound _ m.c2 b n.n2 p2 in
      let (e3, f3) = read_numeral_sound _ m.c3 c n.n3 p3 in
      let (e4, f4) = read_tweak_sound m.c4 d n.n4 p4 in
      let w : VersionV1 = record { major = a; minor = b; patch = c; tweak = d } in
      let same : captured qt w ≡ m = λ i. record { c1 = e1 i; c2 = e2 i; c3 = e3 i; c4 = e4 i } in
      subst (λ u. ((raw ≡ to_string qt u) ⊎ (raw ≡ to_string qt u ++ 10 ∷ [])) × Fits u)
        (ok-injective h4)
        (
          text_of_captured raw rest w m e end same,
          record { major = f1; minor = f2; patch = f3; tweak = f4 },
        )
