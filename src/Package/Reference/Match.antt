-- ===== src/Package/Reference/Match.antt =====
-- The regular expression of `Reference::parse`,
-- `(?<channel>[^:]+):(?<id>[^\/]+)\/(?<version>[^\/]+)\/(?<architecture>[^\/]+)`, which is not
-- anchored: the leftmost match counts, and each run is as long as it can be. A shorter run is
-- followed by a unit that is no separator, so that no backtracking is lost.
use linyaps.Prelude.{
  ◌≡◌, ◌∙◌, refl, ap, true, false, Option, none, some, [], ◌∷◌, ◌++◌, Text, lacks, is_empty, subst,
  Option-cases, inl, inr,
}
use linyaps.Prelude.Maybe.{◌>>=◌, bind-eq-some}
use linyaps.Package.Fields.{run_some, separator, stops, run_some-append, run_some_sound}

pub record Captured : Type 0 where
  pub channel : Text
  pub id : Text
  pub version : Text
  pub architecture : Text

-- A match that begins where the text does.
match_here : Text → Option Captured
match_here s = do
  (channel, r1) ← run_some b':' s
  r2 ← separator b':' r1
  (id, r3) ← run_some b'/' r2
  r4 ← separator b'/' r3
  (version, r5) ← run_some b'/' r4
  r6 ← separator b'/' r5
  (architecture, r7) ← run_some b'/' r6
  some (record { channel = channel; id = id; version = version; architecture = architecture })

abbrev or_later : Option Captured → Option Captured → Option Captured
or_later none later = later
or_later (some m) later = some m

-- The leftmost match.
unfoldable pub search : Text → Option Captured
unfolding match_here
search [] = none
search (c ∷ cs) = let later = search cs in or_later (match_here (c ∷ cs)) later

-- A channel with no colon, an identifier, a version and an architecture with no slash, none empty.
pub record IsWhole (m : Captured) : Type 0 where
  pub channel : (is_empty m.channel ≡ false) × (lacks b':' m.channel ≡ true)
  pub id : (is_empty m.id ≡ false) × (lacks b'/' m.id ≡ true)
  pub version : (is_empty m.version ≡ false) × (lacks b'/' m.version ≡ true)
  pub architecture : (is_empty m.architecture ≡ false) × (lacks b'/' m.architecture ≡ true)

abbrev pub written : Captured → Text → Text
written m rest =
    m.channel ++ (b':' ∷ (m.id ++ (b'/' ∷ (m.version ++ (b'/' ∷ (m.architecture ++ rest))))))

match_here-written :
    (m : Captured) (rest : Text)
    → IsWhole m
    → stops b'/' rest ≡ true
    → match_here (written m rest) ≡ some m
unfolding match_here separator
match_here-written m rest w k = rw (
  run_some-append b':' m.channel
      (b':' ∷ (m.id ++ (b'/' ∷ (m.version ++ (b'/' ∷ (m.architecture ++ rest)))))) w.channel.0
      w.channel.1 refl,
  run_some-append b'/' m.id (b'/' ∷ (m.version ++ (b'/' ∷ (m.architecture ++ rest)))) w.id.0 w.id.1
      refl,
  run_some-append b'/' m.version (b'/' ∷ (m.architecture ++ rest)) w.version.0 w.version.1 refl,
  run_some-append b'/' m.architecture rest w.architecture.0 w.architecture.1 k,
)

search-here : (s : Text) (m : Captured) → match_here s ≡ some m → search s ≡ some m
unfolding search
search-here [] m h = absurd (unfold run_some in cc h)
search-here (c ∷ cs) m h = rw h

-- The four texts with their separators are found, whatever stands behind a further slash.
pub search-written :
    (m : Captured) (rest : Text)
    → IsWhole m
    → stops b'/' rest ≡ true
    → search (written m rest) ≡ some m
search-written m rest w k = search-here (written m rest) m (match_here-written m rest w k)

get_or : Captured → Option Captured → Captured
get_or d none = d
get_or d (some m) = m

match_here-IsWhole : (s : Text) (m : Captured) → match_here s ≡ some m → IsWhole m
unfolding match_here get_or
match_here-IsWhole s m h =
    let ((channel, r1), p1, h1) = bind-eq-some (run_some b':' s) _ h in
    let (r2, p2, h2) = bind-eq-some (separator b':' r1) _ h1 in
    let ((id, r3), p3, h3) = bind-eq-some (run_some b'/' r2) _ h2 in
    let (r4, p4, h4) = bind-eq-some (separator b'/' r3) _ h3 in
    let ((version, r5), p5, h5) = bind-eq-some (run_some b'/' r4) _ h4 in
    let (r6, p6, h6) = bind-eq-some (separator b'/' r5) _ h5 in
    let ((architecture, r7), p7, h7) = bind-eq-some (run_some b'/' r6) _ h6 in
    let (a1, a2, a3) = run_some_sound b':' s channel r1 p1 in
    let (b1, b2, b3) = run_some_sound b'/' r2 id r3 p3 in
    let (c1, c2, c3) = run_some_sound b'/' r4 version r5 p5 in
    let (d1, d2, d3) = run_some_sound b'/' r6 architecture r7 p7 in
    subst IsWhole (ap (get_or m) h7)
      (record { channel = (a1, a2); id = (b1, b2); version = (c1, c2); architecture = (d1, d2) })

-- What is found is whole.
pub search-IsWhole : (s : Text) (m : Captured) → search s ≡ some m → IsWhole m
unfolding search
search-IsWhole [] m h = absurd (cc)
search-IsWhole (c ∷ cs) m h = elim (Option-cases (match_here (c ∷ cs))) [
  | inl e ↦ search-IsWhole cs m (rw e at h)
  | inr (n, e) ↦ match_here-IsWhole (c ∷ cs) m (e ∙ (rw e at h))
]
