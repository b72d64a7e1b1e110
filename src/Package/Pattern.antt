-- ===== src/Package/Pattern.antt =====
-- The regular expressions of package/versionv1.cpp and of `validateDependVersion` in
-- package/version.cpp, anchored at both ends.
use linyaps.Prelude.{
  ◌≡◌, ◌∙◌, refl, ap, subst, is_some, Bool, true, Option, none, some, [], ◌∷◌, ◌++◌, append-nil,
  append_assoc, Text, Bool-cases, inl, inr, ◌⊎◌, arith, if◌then◌else◌,
}
use linyaps.Prelude.Maybe.{◌>>=◌, bind-eq-some}
use linyaps.Qt.{is_numeral}
use linyaps.Package.Numeral.{
  numeral, dot, at_end, numeral-append, numeral_sound, dot_sound, ends_run,
}

-- The captures of a pattern; the last is null where its group takes no part.
pub record Captured : Type 0 where
  pub c1 : Text
  pub c2 : Text
  pub c3 : Text
  pub c4 : Option Text

-- `\.(0|[1-9]\d*)`
dot_numeral : Text → Option (Text × Text)
dot_numeral r = do r1 ← dot r; numeral r1

-- The optional group and the end: with the group if it matches and the subject ends behind it,
-- and else without it.
tail_choice : Text → Option (Text × Text) → Option (Option Text)
tail_choice r none = if at_end r then some none else none
tail_choice r (some (t, r1)) =
    if at_end r1 then some (some t) else if at_end r then some none else none

-- `(?:\.(0|[1-9]\d*))?$`
optional_tail : Text → Option (Option Text)
unfolding dot_numeral tail_choice
optional_tail r = tail_choice r (dot_numeral r)

-- `^(0|[1-9]\d*)\.(0|[1-9]\d*)\.(0|[1-9]\d*)(?:\.(0|[1-9]\d*))?$`
unfoldable pub match_v1 : Text → Option Captured
unfolding optional_tail numeral dot at_end
match_v1 raw = do
  (a, r1) ← numeral raw
  (b, r2) ← dot_numeral r1
  (c, r3) ← dot_numeral r2
  d ← optional_tail r3
  some (record { c1 = a; c2 = b; c3 = c; c4 = d })

-- `^(0|[1-9]\d*)\.(0|[1-9]\d*)(?:\.(0|[1-9]\d*))?$`
unfoldable pub match_depend : Text → Bool
unfolding optional_tail numeral dot at_end
match_depend raw = is_some (do (a, r1) ← numeral raw; (b, r2) ← dot_numeral r1; optional_tail r2)

-- The numbers with dots between them.
abbrev pub dotted_tail : Option Text → Text
dotted_tail none = []
dotted_tail (some t) = b'.' ∷ t

abbrev pub dotted : Captured → Text
dotted m = m.c1 ++ (b'.' ∷ (m.c2 ++ (b'.' ∷ (m.c3 ++ dotted_tail m.c4))))

-- All captures are numbers in shortest form.
abbrev pub IsNumeralTail : Option Text → Type 0
IsNumeralTail none = Unit
IsNumeralTail (some t) = is_numeral t ≡ true

pub record IsNumerals (m : Captured) : Type 0 where
  pub n1 : is_numeral m.c1 ≡ true
  pub n2 : is_numeral m.c2 ≡ true
  pub n3 : is_numeral m.c3 ≡ true
  pub n4 : IsNumeralTail m.c4

dot_numeral-append :
    (t rest : Text)
    → is_numeral t ≡ true
    → ends_run rest ≡ true
    → dot_numeral (b'.' ∷ (t ++ rest)) ≡ some (t, rest)
unfolding dot_numeral dot
dot_numeral-append t rest h k = numeral-append t rest h k

optional_tail-dotted : (d : Option Text) → IsNumeralTail d → optional_tail (dotted_tail d) ≡ some d
unfolding optional_tail dot at_end
optional_tail-dotted none h = refl
optional_tail-dotted (some t) h = ground (arith, numeral-append t [] h refl, append-nil t)

ends_run-dotted_tail : (d : Option Text) → ends_run (dotted_tail d) ≡ true
ends_run-dotted_tail none = refl
ends_run-dotted_tail (some t) = refl

-- The pattern matches the numbers with dots between them.
pub match_v1-dotted : (m : Captured) → IsNumerals m → match_v1 (dotted m) ≡ some m
unfolding match_v1
match_v1-dotted m h = rw (
  numeral-append m.c1 (b'.' ∷ (m.c2 ++ (b'.' ∷ (m.c3 ++ dotted_tail m.c4)))) h.n1 refl,
  dot_numeral-append m.c2 (b'.' ∷ (m.c3 ++ dotted_tail m.c4)) h.n2 refl,
  dot_numeral-append m.c3 (dotted_tail m.c4) h.n3 (ends_run-dotted_tail m.c4),
  optional_tail-dotted m.c4 h.n4,
)

-- The rest of the subject where a pattern ends.
abbrev pub IsEnd : Text → Type 0
IsEnd r = (r ≡ []) ⊎ (r ≡ 10 ∷ [])

at_end-IsEnd : (r : Text) → at_end r ≡ true → IsEnd r
unfolding at_end
at_end-IsEnd [] h = inl refl
at_end-IsEnd (c ∷ []) h = inr (ground arith)
at_end-IsEnd (c ∷ d ∷ r) h = absurd (ground arith)

dot_numeral_sound :
    (s t rest : Text)
    → dot_numeral s ≡ some (t, rest)
    → (s ≡ b'.' ∷ (t ++ rest)) × (is_numeral t ≡ true)
unfolding dot_numeral
dot_numeral_sound s t rest h =
    let (r1, p, q) = bind-eq-some (dot s) numeral h in
    let (e, n) = numeral_sound r1 t rest q in (dot_sound s r1 p ∙ ap (λ l. b'.' ∷ l) e, n)

-- The subject is an optional group and an end.
abbrev Tailed : Text → Option Text → Type 0
Tailed s d = (rest : Text) × (s ≡ dotted_tail d ++ rest) × IsEnd rest × IsNumeralTail d

no_group-Tailed : (s : Text) (d : Option Text) → tail_choice s none ≡ some d → Tailed s d
unfolding tail_choice
no_group-Tailed s none h = elim (Bool-cases (at_end s)) [
  | inl e ↦ (s, refl, at_end-IsEnd s e, tt)
  | inr e ↦ absurd (ground arith)
]
no_group-Tailed s (some t) h = absurd (ground arith)

group-Tailed :
    (s t r1 : Text) (d : Option Text)
    → dot_numeral s ≡ some (t, r1)
    → at_end r1 ≡ true
    → some (some t) ≡ some d
    → Tailed s d
group-Tailed s t r1 none e f k = absurd (cc)
group-Tailed s t r1 (some u) e f k =
    let (p, n) = dot_numeral_sound s t r1 e in
    let same : u ≡ t = cc in (r1, rw same p, at_end-IsEnd r1 f, rw same n)

tail_choice_sound :
    (s : Text) (o : Option (Text × Text)) (d : Option Text)
    → dot_numeral s ≡ o
    → tail_choice s o ≡ some d
    → Tailed s d
unfolding tail_choice
tail_choice_sound s none d e h = no_group-Tailed s d h
tail_choice_sound s (some (t, r1)) d e h = elim (Bool-cases (at_end r1)) [
  | inl f ↦ group-Tailed s t r1 d e f (rw f at h)
  | inr f ↦ no_group-Tailed s d (rw f at h)
]

optional_tail_sound : (s : Text) (d : Option Text) → optional_tail s ≡ some d → Tailed s d
unfolding optional_tail
optional_tail_sound s d h = tail_choice_sound s (dot_numeral s) d refl h

-- The subject is what was captured and an end.
abbrev pub Matched : Text → Captured → Type 0
Matched raw m = (rest : Text) × (raw ≡ dotted m ++ rest) × IsEnd rest × IsNumerals m

assemble-Matched :
    (raw a r1 b r2 c r3 : Text) (d : Option Text)
    → numeral raw ≡ some (a, r1)
    → dot_numeral r1 ≡ some (b, r2)
    → dot_numeral r2 ≡ some (c, r3)
    → optional_tail r3 ≡ some d
    → Matched raw (record { c1 = a; c2 = b; c3 = c; c4 = d })
assemble-Matched raw a r1 b r2 c r3 d p1 p2 p3 p4 =
    let (e1, n1) = numeral_sound raw a r1 p1 in
    let (e2, n2) = dot_numeral_sound r1 b r2 p2 in
    let (e3, n3) = dot_numeral_sound r2 c r3 p3 in
    let (rest, e4, end, n4) = optional_tail_sound r3 d p4 in
    (
      rest,
      rw (e1, e2, e3, e4) (simp append_assoc),
      end,
      record { n1 = n1; n2 = n2; n3 = n3; n4 = n4 },
    )

-- A subject that matches is the captured numbers with dots between them, and an end.
pub match_v1_sound : (raw : Text) (m : Captured) → match_v1 raw ≡ some m → Matched raw m
unfolding match_v1
match_v1_sound raw m h =
    let ((a, r1), p1, h1) = bind-eq-some (numeral raw) _ h in
    let ((b, r2), p2, h2) = bind-eq-some (dot_numeral r1) _ h1 in
    let ((c, r3), p3, h3) = bind-eq-some (dot_numeral r2) _ h2 in
    let (d, p4, h4) = bind-eq-some (optional_tail r3) _ h3 in
    subst (Matched raw) (ap (get_or m) h4) (assemble-Matched raw a r1 b r2 c r3 d p1 p2 p3 p4)
  where
    get_or : Captured → Option Captured → Captured
    get_or m none = m
    get_or m (some x) = x
