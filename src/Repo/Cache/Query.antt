-- ===== src/Repo/Cache/Query.antt =====
-- repo/repo_cache.h and repo_cache.cpp: `repoCacheQuery` and `queryLayerItem`, which gives the layers
-- that have what the query asks for, the newest version first.
pub mod Order
pub mod Found
pub mod Asked
use linyaps.Prelude.{
  Bool, true, false, not, ◌&&◌, ◌||◌, Option, none, some, List, Text, text_eq, is_some, keep_if,
}
use linyaps.Prelude.Sort.{sort}
use linyaps.Error.{Result, ok, err}
use linyaps.Qt.{Qt}
use linyaps.Semver.{Semver}
use linyaps.Package.Version
use linyaps.Package.Version.{Version, default_options}
use linyaps.Repo.Cache.{LayersItem, RepoCache}

pub record RepoCacheQuery : Type 0 where
  pub id : Option Text
  pub repo : Option Text
  pub channel : Option Text
  pub version : Option Text
  pub module_name : Option Text
  pub uuid : Option Text
  pub deleted : Option Bool

abbrev same : Bool → Bool → Bool
same true b = b
same false b = not b

-- `query.x && query.x.value() != x`: what is asked for and differs.
abbrev pub differs : Option Text → Text → Bool
differs none text = false
differs (some asked) text = not (text_eq asked text)

abbrev pub lacks_deleted : Option Bool → Option Bool → Bool
lacks_deleted none deleted = false
lacks_deleted (some asked) none = true
lacks_deleted (some asked) (some deleted) = not (same asked deleted)

abbrev pub lacks_uuid : Option Text → Option Text → Bool
lacks_uuid none uuid = false
lacks_uuid (some asked) none = true
lacks_uuid (some asked) (some uuid) = not (text_eq asked uuid)

-- Whether the loop comes to its end without a `continue`.
unfoldable pub selects : RepoCacheQuery → LayersItem → Bool
selects query layer = not (
    differs query.id layer.info.id
    || differs query.repo layer.repo
    || differs query.channel layer.info.channel
    || differs query.version layer.info.version
    || differs query.module_name layer.info.module_name
    || lacks_deleted query.deleted layer.deleted
    || lacks_uuid query.uuid layer.info.uuid)

-- The comparison given to `std::sort`: false where a version does not parse.
abbrev newer_of : Qt → Semver → Result Version → Result Version → Bool
newer_of qt sv (ok lhs) (ok rhs) = Version.gt qt sv lhs rhs
newer_of qt sv (ok lhs) (err e) = false
newer_of qt sv (err e) rhs = false

unfoldable pub newer : Qt → Semver → LayersItem → LayersItem → Bool
newer qt sv lhs rhs =
    newer_of qt sv (Version.parse qt sv lhs.info.version default_options)
      (Version.parse qt sv rhs.info.version default_options)

unfoldable pub query_layer_item : Qt → Semver → RepoCache → RepoCacheQuery → List LayersItem
unfolding selects newer sort
query_layer_item qt sv c query = sort (newer qt sv) (keep_if (selects query) c.cache.layers)
