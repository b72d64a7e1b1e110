-- ===== src/Package/Reference/RoundTrip.antt =====
-- References and their texts.
use linyaps.Prelude.{◌≡◌, ◌≢◌, refl, true, false, ◌++◌, append_assoc, subst, Text, lacks, is_empty}
use linyaps.Error.{ok, >>=-eq-ok, or_fail, or_fail-eq-ok, ok-injective, regexp_mismatched}
use linyaps.Qt.{Qt}
use linyaps.Semver.{Semver}
use linyaps.Package.Architecture
use linyaps.Package.Architecture.{Architecture, unknow}
use linyaps.Package.Architecture.Names.{parse_iff, to_string-to_std_string}
use linyaps.Package.Fields.{stops}
use linyaps.Package.Version
use linyaps.Package.Version.{Version, default_options}
use linyaps.Package.Reference.Match.{
  Captured, IsWhole, search, written, search-written, search-IsWhole,
}
use linyaps.Package.Reference.{
  Reference, create, assemble, parse, to_string, to_variant_map, from_variant_map,
}

-- A reference whose text can be read back: no separator stands in the wrong place, nothing is empty,
-- the architecture is known, and the version is read back from its text.
pub record IsReadable (qt : Qt) (sv : Semver) (r : Reference) : Type 0 where
  pub channel : (is_empty r.channel ≡ false) × (lacks b':' r.channel ≡ true)
  pub id : (is_empty r.id ≡ false) × (lacks b'/' r.id ≡ true)
  pub version_text :
      (is_empty (Version.to_string qt sv r.version) ≡ false)
      × (lacks b'/' (Version.to_string qt sv r.version) ≡ true)
  pub version :
      Version.parse qt sv (Version.to_string qt sv r.version) default_options ≡ ok r.version
  pub arch : r.arch ≢ unknow

captured : Qt → Semver → Reference → Captured
captured qt sv r = record {
  channel = r.channel;
  id = r.id;
  version = Version.to_string qt sv r.version;
  architecture = Architecture.to_std_string r.arch;
}

-- Names of architectures are not empty and have no slash.
arch_text :
    (a : Architecture)
    → (is_empty (Architecture.to_std_string a) ≡ false)
      × (lacks b'/' (Architecture.to_std_string a) ≡ true)
unfolding Architecture.to_std_string
arch_text unknow = (refl, refl)
arch_text a = (refl, refl)

module _ (qt : Qt) (sv : Semver) where
  assemble-captured :
      (r : Reference)
      → IsReadable qt sv r
      → assemble qt sv r.channel r.id
          (Version.to_string qt sv r.version)
          (Architecture.to_std_string r.arch)
        ≡ ok r
  unfolding assemble create
  assemble-captured r h = rw (
    h.version,
    (parse_iff (Architecture.to_std_string r.arch) r.arch).1 (h.arch, refl),
    h.channel.0,
    h.id.0,
  )

  to_string-written :
      (r : Reference) (rest : Text) → to_string qt sv r ++ rest ≡ written (captured qt sv r) rest
  unfolding to_string captured
  to_string-written r rest = rw to_string-to_std_string (simp append_assoc)

  captured-IsWhole : (r : Reference) → IsReadable qt sv r → IsWhole (captured qt sv r)
  unfolding captured
  captured-IsWhole r h = record {
    channel = h.channel;
    id = h.id;
    version = h.version_text;
    architecture = arch_text r.arch;
  }

  -- The text of a reference, with nothing or a slash and anything else behind it, is read back as
  -- the reference, if nothing in it is empty, its channel has no colon, its identifier and its
  -- version have no slash, its architecture is known, and its version is read back from its text.
  pub parse_reference-to_string :
      (r : Reference) (rest : Text)
      → IsReadable qt sv r
      → stops b'/' rest ≡ true
      → parse qt sv (to_string qt sv r ++ rest) ≡ ok r
  unfolding parse
  parse_reference-to_string r rest h k =
      rw (to_string-written r rest, search-written (captured qt sv r) rest (captured-IsWhole r h) k)
        (unfold captured in assemble-captured r h)

  -- `fromVariantMap` reads the entries that `toVariantMap` writes of a reference back as the
  -- reference, if its text could be read back too.
  pub from_variant_map-to_variant_map :
      (r : Reference) → IsReadable qt sv r → from_variant_map qt sv (to_variant_map qt sv r) ≡ ok r
  unfolding from_variant_map to_variant_map
  from_variant_map-to_variant_map r h = assemble-captured r h

  -- What `parse` promises of a reference.
  abbrev pub IsSound : Reference → Type 0
  IsSound r =
      (is_empty r.channel ≡ false)
      × (lacks b':' r.channel ≡ true)
      × (is_empty r.id ≡ false)
      × (lacks b'/' r.id ≡ true)
      × (r.arch ≢ unknow)

  -- A reference that was read has a channel with no colon and an identifier with no slash, neither
  -- of them empty, and a known architecture.
  pub parse-IsSound : (raw : Text) (r : Reference) → parse qt sv raw ≡ ok r → IsSound r
  unfolding parse assemble create
  parse-IsSound raw r h =
      let (m, p, h1) = >>=-eq-ok (or_fail regexp_mismatched (search raw)) _ h in
      let w = search-IsWhole raw m (or_fail-eq-ok _ _ p) in
      let (v, p1, h2) = >>=-eq-ok (Version.parse qt sv m.version default_options) _ h1 in
      let (a, p2, h3) = >>=-eq-ok (Architecture.parse m.architecture) _ h2 in
      subst IsSound (ok-injective (rw (w.channel.0, w.id.0) at h3))
        (w.channel.0, w.channel.1, w.id.0, w.id.1, ((parse_iff m.architecture a).0 p2).0)
