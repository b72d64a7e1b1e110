-- ===== src/Package/FuzzyReference/Match.antt =====
-- The regular expression of `FuzzyReference::parse`,
-- `^(?:(?<channel>[^:]*):)?(?<id>[^\/]*)(?:\/(?<version>[^\/]*)(?:\/(?<architecture>[^\/]*))?)?$`.
-- A group that takes no part captures the empty text, as `QRegularExpressionMatch::captured` does.
-- The runs take a newline too, so that `$` is the end of the text.
use linyaps.Prelude.{
  ◌≡◌, ◌∙◌, refl, true, Option, none, some, [], ◌∷◌, ◌++◌, append-nil, Text, lacks, is_empty, arith,
  if◌then◌else◌, Option-cases, inl, inr,
}
use linyaps.Prelude.Maybe.{◌>>=◌, bind-eq-some}
use linyaps.Package.Fields.{run, separator, run-append, run_lem}

pub record Captured : Type 0 where
  pub channel : Text
  pub id : Text
  pub version : Text
  pub architecture : Text

-- The group of the architecture and the end.
match_arch : Text → Text → Text → Text → Option Captured
match_arch channel id version [] =
    some (record { channel = channel; id = id; version = version; architecture = [] })
match_arch channel id version (slash ∷ r) =
    let (architecture, r') = run b'/' r in
    if is_empty r'
    then some
        (record { channel = channel; id = id; version = version; architecture = architecture })
    else none

-- The group of the version, with what is in it, and the end.
match_version : Text → Text → Text → Option Captured
unfolding match_arch
match_version channel id [] =
    some (record { channel = channel; id = id; version = []; architecture = [] })
match_version channel id (slash ∷ r) =
    let (version, r') = run b'/' r in match_arch channel id version r'

-- From the identifier on; a run stops at a slash or at the end.
match_id : Text → Text → Option Captured
unfolding match_version
match_id channel s = let (id, r) = run b'/' s in match_version channel id r

-- With the group of the channel.
match_channel : Text → Option Captured
unfolding match_id
match_channel s = do let (channel, r) = run b':' s; r' ← separator b':' r; match_id channel r'

abbrev or_without : Option Captured → Option Captured → Option Captured
or_without (some m) without = some m
or_without none without = without

-- The group of the channel is left out only where there is no match with it.
unfoldable pub match_whole : Text → Option Captured
unfolding match_channel match_id
match_whole s = or_without (match_channel s) (match_id [] s)

-- A channel with no colon, and the rest with no slash.
pub record IsWhole (m : Captured) : Type 0 where
  pub channel : lacks b':' m.channel ≡ true
  pub id : lacks b'/' m.id ≡ true
  pub version : lacks b'/' m.version ≡ true
  pub architecture : lacks b'/' m.architecture ≡ true

abbrev pub written : Captured → Text
written m = m.channel ++ (b':' ∷ (m.id ++ (b'/' ∷ (m.version ++ (b'/' ∷ m.architecture)))))

-- The four texts with their separators are matched, each by its group.
pub match_whole-written : (m : Captured) → IsWhole m → match_whole (written m) ≡ some m
unfolding match_whole match_channel separator
match_whole-written m w =
    rw
      (
        run-append b':' m.channel (b':' ∷ (m.id ++ (b'/' ∷ (m.version ++ (b'/' ∷ m.architecture)))))
            w.channel refl,
        run-append b'/' m.id (b'/' ∷ (m.version ++ (b'/' ∷ m.architecture))) w.id refl,
        run-append b'/' m.version (b'/' ∷ m.architecture) w.version refl,
      )
      (ground
        (arith, run-append b'/' m.architecture [] w.architecture refl, append-nil m.architecture))

module _ (channel : Text) (c : lacks b':' channel ≡ true) where
  match_arch-IsWhole :
      (id version r : Text) (m : Captured)
      → lacks b'/' id ≡ true
      → lacks b'/' version ≡ true
      → match_arch channel id version r ≡ some m
      → IsWhole m
  unfolding match_arch
  match_arch-IsWhole id version [] m i v h = ground arith
  match_arch-IsWhole id version (slash ∷ r) m i v h = ground (arith, run_lem b'/' r)

  match_version-IsWhole :
      (id r : Text) (m : Captured)
      → lacks b'/' id ≡ true
      → match_version channel id r ≡ some m
      → IsWhole m
  unfolding match_version
  match_version-IsWhole id [] m i h = ground arith
  match_version-IsWhole id (slash ∷ r) m i h =
      match_arch-IsWhole id (run b'/' r).0 (run b'/' r).1 m i (run_lem b'/' r).0 h

  match_id-IsWhole : (s : Text) (m : Captured) → match_id channel s ≡ some m → IsWhole m
  unfolding match_id
  match_id-IsWhole s m h =
      match_version-IsWhole (run b'/' s).0 (run b'/' s).1 m (run_lem b'/' s).0 h

match_channel-IsWhole : (s : Text) (m : Captured) → match_channel s ≡ some m → IsWhole m
unfolding match_channel
match_channel-IsWhole s m h =
    let (r, p, k) = bind-eq-some (separator b':' (run b':' s).1) _ h in
    match_id-IsWhole (run b':' s).0 (run_lem b':' s).0 r m k

-- What is matched is whole.
pub match_whole-IsWhole : (s : Text) (m : Captured) → match_whole s ≡ some m → IsWhole m
unfolding match_whole
match_whole-IsWhole s m h = elim (Option-cases (match_channel s)) [
  | inl e ↦ match_id-IsWhole [] refl s m (rw e at h)
  | inr (n, e) ↦ match_channel-IsWhole s m (e ∙ (rw e at h))
]
