-- ===== src/Samples/Repos.antt =====
-- The theorems on repositories and on the cache at concrete inputs.
use linyaps.Prelude.{
  ◌≡◌, refl, all, false, ◌&&◌, none, some, [], ◌∷◌, Text, codes, text_eq, All, ℤ, pos,
}
use linyaps.Prelude.Sort.{count_if}
use linyaps.Package.Version.{version_v1}
use linyaps.Repo.Config.{
  Repo, RepoConfig, RepoConfigV2, convert_to_v2, promote_priority, recover_priority,
  get_repo_max_priority, get_highest_priority_repos, copy_if_priority,
}
use linyaps.Repo.Config.Convert.{IsConverted, convert_to_v2-IsConverted}
use linyaps.Repo.Config.Priority.{IsMax, recover-promote, get_highest_priority_repos-IsMax}
use linyaps.Repo.Cache.{
  LayersItem, RepositoryCache, RepoCache, Disk, no_rename, all_written, add_layer_item,
  delete_layer_item, update_merged_items, create, loaded, unknown, CacheFile,
}
use linyaps.Repo.Cache.Layers.{IsUnique, layers-IsUnique, delete_layer_item-add_layer_item}
use linyaps.Repo.Cache.Written.{IsWritten, methods-IsWritten}
use linyaps.Repo.Cache.Rebuild.{IsCurrent, create-IsCurrent}
use linyaps.Repo.Cache.Query.{RepoCacheQuery, query_layer_item}
use linyaps.Repo.Cache.Query.Asked.{is_met, asked_of, query_layer_item-count}
use linyaps.Repo.Cache.Query.Order.{IsVersioned, IsNewestFirst, query_layer_item-IsNewestFirst}
use linyaps.Samples.QtTexts.{sample_qt}
use linyaps.Samples.Precedence.{sample_semver, sample_precedence}
use linyaps.Samples.Versions.{four}

abbrev pub stable : Repo
stable = record { alias = none; name = codes "stable"; priority = pos 0; url = codes "https://a" }

abbrev pub nightly : Repo
nightly = record {
  alias = some (codes "n");
  name = codes "nightly";
  priority = pos 3;
  url = codes "https://b";
}

abbrev pub config : RepoConfigV2
config = record { default_repo = codes "stable"; repos = stable ∷ nightly ∷ []; version = 2 }

abbrev old_config : RepoConfig
old_config = record {
  default_repo = codes "b";
  repos = (codes "a", codes "https://a") ∷ (codes "b", codes "https://b") ∷ [];
}

abbrev pub layer : Text → LayersItem
layer version = record {
  commit = codes "c0";
  repo = codes "stable";
  deleted = none;
  info = record {
    id = codes "org.a";
    channel = codes "main";
    version = version;
    arch = codes "x86_64" ∷ [];
    module_name = codes "binary";
    uuid = none;
    kind = codes "app";
    base = codes "org.base/1.0";
    runtime = none;
    extensions = none;
    ext_impl = none;
    permissions = none;
  };
}

abbrev pub cached : RepositoryCache
cached = record {
  ll_version = codes "1.9";
  config = config;
  version = codes "2";
  layers = layer (codes "1.2.3.4") ∷ layer (codes "1.2.3.5") ∷ [];
  merged = none;
}

abbrev pub repo_cache : RepoCache
repo_cache = record { cache = cached; file = some cached; version_tag = some (codes "1.9") }

abbrev anything : RepoCacheQuery
anything = record {
  id = some (codes "org.a");
  repo = none;
  channel = none;
  version = none;
  module_name = none;
  uuid = none;
  deleted = none;
}

convert_to_v2-IsConverted_example :
    (new : RepoConfigV2) × (convert_to_v2 old_config ≡ some new) × IsConverted old_config new
unfolding linyaps.Repo.Config.find_url text_eq
convert_to_v2-IsConverted_example = convert_to_v2-IsConverted old_config (codes "https://b") refl

recover-promote_example :
    ((promote_priority config (codes "n")).1 ≡ some (pos 3))
    × (recover_priority (promote_priority config (codes "n")).0 (codes "n") (pos 3) ≡ config)
unfolding linyaps.Repo.Config.find_repo text_eq
recover-promote_example = recover-promote config (codes "n") nightly refl

get_highest_priority_repos-IsMax_example :
    (m : ℤ) × (get_repo_max_priority config ≡ some m)
    × IsMax m config.repos
    × (get_highest_priority_repos config ≡ copy_if_priority m config.repos)
get_highest_priority_repos-IsMax_example = get_highest_priority_repos-IsMax config refl

layers-IsUnique_example :
    IsUnique
      (add_layer_item (codes "1.9") no_rename (layer (codes "2.0")) repo_cache).1.cache.layers
    × IsUnique
        (delete_layer_item (codes "1.9") no_rename (layer (codes "2.0")) repo_cache).1.cache.layers
unfolding linyaps.Repo.Cache.find_matching_item text_eq
layers-IsUnique_example =
    layers-IsUnique (codes "1.9") no_rename (layer (codes "2.0")) repo_cache (refl, (refl, tt))

delete_layer_item-add_layer_item_example :
    (delete_layer_item
      (codes "1.9")
      no_rename
      (layer (codes "2.0"))
      (add_layer_item (codes "1.9") all_written (layer (codes "2.0")) repo_cache).1).1.cache.layers
    ≡ repo_cache.cache.layers
unfolding linyaps.Repo.Cache.find_matching_item text_eq
delete_layer_item-add_layer_item_example =
    delete_layer_item-add_layer_item (codes "1.9") all_written no_rename (layer (codes "2.0"))
      repo_cache refl

methods-IsWritten_example :
    IsWritten all_written repo_cache
      (add_layer_item (codes "1.9") all_written (layer (codes "2.0")) repo_cache)
    × IsWritten all_written repo_cache
        (delete_layer_item (codes "1.9") all_written (layer (codes "2.0")) repo_cache)
    × IsWritten all_written repo_cache (update_merged_items (codes "1.9") all_written [] repo_cache)
methods-IsWritten_example =
    methods-IsWritten (codes "1.9") all_written (layer (codes "2.0")) [] repo_cache

create-IsCurrent_example :
    IsCurrent
      (codes "2.0")
      config
      (create (codes "2.0") all_written false (some []) (loaded cached) config repo_cache).1.cache
create-IsCurrent_example =
    create-IsCurrent (codes "2.0") all_written false (some []) (loaded cached) config repo_cache
      (λ e. cc)

query_layer_item-count_example :
    count_if
      (λ (l : LayersItem). text_eq l.repo (codes "stable"))
      (query_layer_item sample_qt sample_semver repo_cache anything)
    ≡ count_if
        (λ (l : LayersItem). all is_met (asked_of anything l) && text_eq l.repo (codes "stable"))
        repo_cache.cache.layers
query_layer_item-count_example =
    query_layer_item-count sample_qt sample_semver repo_cache anything
      (λ (l : LayersItem). text_eq l.repo (codes "stable"))

pub layers-IsVersioned : All (IsVersioned sample_qt sample_semver) repo_cache.cache.layers
unfolding linyaps.Package.Version.parse linyaps.Package.VersionV2.parse
    linyaps.Samples.Precedence.parse linyaps.Package.Pattern.match_v1
    linyaps.Samples.QtTexts.to_long_long text_eq
layers-IsVersioned = ((version_v1 (four 4), refl, refl), ((version_v1 (four 5), refl, refl), tt))

query_layer_item-IsNewestFirst_example :
    IsNewestFirst sample_qt sample_semver
      (query_layer_item sample_qt sample_semver repo_cache anything)
query_layer_item-IsNewestFirst_example =
    query_layer_item-IsNewestFirst sample_qt sample_semver sample_precedence repo_cache anything
      layers-IsVersioned
