-- ===== src/Package/Reference.antt =====
-- package/reference.h and reference.cpp
pub mod Match
pub mod RoundTrip
use linyaps.Prelude.{
  ℕ, Bool, true, false, not, ◌&&◌, ◌||◌, Option, none, some, List, [], ◌∷◌, ◌++◌, Text, codes,
  text_eq, is_empty, if◌then◌else◌,
}
use linyaps.Error.{
  Result, ok, err, ◌>>=◌, or_fail, regexp_mismatched, tweak_required, empty_channel, empty_id,
}
use linyaps.Qt.{Qt}
use linyaps.Semver.{Semver}
use linyaps.Package.Architecture
use linyaps.Package.Architecture.{Architecture, arch_eq}
use linyaps.Package.Version
use linyaps.Package.Version.{Version, default_options}
use linyaps.Package.Info.{PackageInfoV2}
use linyaps.Package.Reference.Match.{Captured, search}

pub record Reference : Type 0 where
  pub channel : Text
  pub id : Text
  pub version : Version
  pub arch : Architecture

-- The constructor, whose exceptions `create` hands on as errors.
unfoldable pub create : Text → Text → Version → Architecture → Result Reference
create channel id version arch =
    if is_empty channel
    then err empty_channel
    else if is_empty id
    then err empty_id
    else ok (record { channel = channel; id = id; version = version; arch = arch })

-- `arch[0]`, `arch.front()`. Of an empty vector these are undefined in C++; here the text is empty.
abbrev pub front : List Text → Text
front [] = []
front (a ∷ rest) = a

-- What the code reads of `api::types::v1::BuilderProject`, a generated type.
pub record ProjectPackage : Type 0 where
  pub id : Text
  pub version : Text
  pub architecture : Option Text
  pub channel : Option Text

-- The four entries of the `QVariantMap`.
pub record VariantMap : Type 0 where
  pub channel : Text
  pub id : Text
  pub version : Text
  pub arch : Text

or_current : Option Text → Result Architecture → Result Architecture
or_current none current = current
or_current (some raw) current = Architecture.parse raw

or_main : Option Text → Text
or_main none = codes "main"
or_main (some channel) = channel

unfoldable pub to_string : Qt → Semver → Reference → Text
to_string qt sv r =
    r.channel
    ++ (b':'
        ∷ (r.id
            ++ (b'/'
                ∷ (Version.to_string qt sv r.version ++ (b'/' ∷ Architecture.to_string r.arch)))))

unfoldable pub to_variant_map : Qt → Semver → Reference → VariantMap
to_variant_map qt sv r = record {
  channel = r.channel;
  id = r.id;
  version = Version.to_string qt sv r.version;
  arch = Architecture.to_std_string r.arch;
}

module _ (qt : Qt) (sv : Semver) where
  -- The same checks, in the same order, end three of the functions.
  assemble : Text → Text → Text → Text → Result Reference
  unfolding create
  assemble channel id raw_version raw_arch = do
    version ← Version.parse qt sv raw_version default_options
    arch ← Architecture.parse raw_arch
    create channel id version arch

  unfoldable pub parse : Text → Result Reference
  unfolding assemble
  parse raw = do
    matches ← or_fail regexp_mismatched (search raw)
    assemble matches.channel matches.id matches.version matches.architecture

  unfoldable pub from_package_info : PackageInfoV2 → Result Reference
  unfolding create
  from_package_info info = do
    version ← Version.parse qt sv info.version default_options
    if Version.is_version_v1 version && not (Version.has_tweak version)
        then err tweak_required
        else do
          architecture ← Architecture.parse (front info.arch)
          create info.channel info.id version architecture

  unfoldable pub from_variant_map : VariantMap → Result Reference
  unfolding assemble
  from_variant_map m = assemble m.channel m.id m.version m.arch

  -- `current` is the result of `Architecture::currentCPUArchitecture()`.
  unfoldable pub from_builder_project : Result Architecture → ProjectPackage → Result Reference
  unfolding create or_current or_main
  from_builder_project current project = do
    version ← Version.parse qt sv project.version default_options
    architecture ← or_current project.architecture current
    create (or_main project.channel) project.id version architecture

  unfoldable pub ne : Reference → Reference → Bool
  ne lhs rhs =
      not (text_eq lhs.channel rhs.channel)
      || not (text_eq lhs.id rhs.id)
      || Version.ne qt sv lhs.version rhs.version
      || not (arch_eq lhs.arch rhs.arch)

  unfoldable pub eq : Reference → Reference → Bool
  unfolding ne
  eq lhs rhs = not (ne lhs rhs)
