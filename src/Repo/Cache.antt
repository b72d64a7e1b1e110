-- ===== src/Repo/Cache.antt =====
-- repo/repo_cache.h and repo_cache.cpp: the cache of installed layers, in memory and in the file
-- `states.json`. What the operating system answers comes with each call. The layers' type and the
-- cache's are generated types; the fields that the code reads are modelled.
pub mod Layers
pub mod Erase
pub mod Written
pub mod Query
pub mod Rebuild
use linyaps.Prelude.{
  ℕ, Bool, true, false, not, ◌&&◌, ◌||◌, Option, none, some, List, [], ◌∷◌, ◌++◌, Text, codes,
  text_eq, if◌then◌else◌, keep_if, ◌==◌,
}
use linyaps.Prelude.Maybe.{◌>>=◌}
use linyaps.Error.{
  Error, Result, ok, err, item_exists, item_missing, write_failed, list_refs_failed,
  check_exists_failed,
}
use linyaps.Package.Info.{PackageInfoV2}
use linyaps.Package.Reference.{front}
use linyaps.Repo.Config.{RepoConfigV2}

pub record LayersItem : Type 0 where
  pub commit : Text
  pub repo : Text
  pub info : PackageInfoV2
  pub deleted : Option Bool

pub record MergedItem : Type 0 where
  pub binary_commit : Option Text
  pub commits : List Text
  pub id : Text
  pub modules : List Text
  pub name : Option Text

pub record RepositoryCache : Type 0 where
  pub ll_version : Text
  pub config : RepoConfigV2
  pub version : Text
  pub layers : List LayersItem
  pub merged : Option (List MergedItem)

-- The object, with what is on disk: the cache in the cache file, where there is a file that loads,
-- and what the file `.version` beside it holds.
pub record RepoCache : Type 0 where
  pub cache : RepositoryCache
  pub file : Option RepositoryCache
  pub version_tag : Option Text

-- How far the system lets `writeToDisk` come: no parent directory, no temporary file, no renaming,
-- no `.version` file, or all of it; or what is written to a file may be cut off, as on a full disk,
-- which the code does not look at: whether all of the cache is written, and what `.version` holds.
pub data Disk : Type 0 where
  no_parent no_temp_file no_rename no_version_file all_written : Disk
  unchecked : Bool → Option Text → Disk

abbrev pub is_whole : Disk → Bool
is_whole (unchecked whole tag) = whole
is_whole disk = true

abbrev pub cache_file_version : Text
cache_file_version = codes "2"

-- A method's result, and the object after it; what was changed before a failure stays changed.
abbrev pub Method : Type 0 → Type 0
Method A = Result A × RepoCache

unfoldable pub write_to_disk : Text → Disk → RepoCache → Method (Unit {0})
write_to_disk ll_version no_parent c = (err write_failed, c)
write_to_disk ll_version no_temp_file c = (err write_failed, c)
write_to_disk ll_version no_rename c = (err write_failed, c)
write_to_disk ll_version no_version_file c = (ok tt, record c { file = some c.cache })
write_to_disk ll_version all_written c =
    (ok tt, record c { file = some c.cache; version_tag = some ll_version })
write_to_disk ll_version (unchecked whole tag) c =
    (ok tt, record c { file = if whole then some c.cache else none; version_tag = tag })

-- The comparison of `findMatchingItem`'s lambda.
unfoldable pub matches : LayersItem → LayersItem → Bool
matches item val = not (
    not (text_eq item.commit val.commit)
    || not (text_eq item.repo val.repo)
    || not (text_eq item.info.channel val.info.channel)
    || not (text_eq item.info.id val.info.id)
    || not (text_eq item.info.version val.info.version)
    || not (text_eq (front item.info.arch) (front val.info.arch))
    || not (text_eq item.info.module_name val.info.module_name))

-- `std::find_if`: the first layer that matches.
unfoldable pub find_matching_item : LayersItem → List LayersItem → Option LayersItem
unfolding matches
find_matching_item item [] = none
find_matching_item item (val ∷ vals) =
    let later = find_matching_item item vals in if matches item val then some val else later

-- `layers.erase(it)` for the iterator that `findMatchingItem` returns.
unfoldable pub erase_matching : LayersItem → List LayersItem → List LayersItem
unfolding matches
erase_matching item [] = []
erase_matching item (val ∷ vals) =
    let later = erase_matching item vals in if matches item val then vals else val ∷ later

abbrev pub set_layers : List LayersItem → RepoCache → RepoCache
set_layers layers c = record c { cache = record c.cache { layers = layers } }

-- The failed `Q_ASSERT`s of a debug build are not modelled: the release build returns the error.
unfoldable add_unless : Text → Disk → LayersItem → RepoCache → Option LayersItem → Method (Unit {0})
unfolding write_to_disk
add_unless ll_version disk item c (some val) = (err item_exists, c)
add_unless ll_version disk item c none =
    write_to_disk ll_version disk (set_layers (c.cache.layers ++ item ∷ []) c)

unfoldable pub add_layer_item : Text → Disk → LayersItem → RepoCache → Method (Unit {0})
unfolding add_unless find_matching_item
add_layer_item ll_version disk item c =
    add_unless ll_version disk item c (find_matching_item item c.cache.layers)

unfoldable delete_found :
    Text → Disk → LayersItem → RepoCache → Option LayersItem → Method (Unit {0})
unfolding write_to_disk erase_matching
delete_found ll_version disk item c none = (err item_missing, c)
delete_found ll_version disk item c (some val) =
    write_to_disk ll_version disk (set_layers (erase_matching item c.cache.layers) c)

unfoldable pub delete_layer_item : Text → Disk → LayersItem → RepoCache → Method (Unit {0})
unfolding delete_found find_matching_item
delete_layer_item ll_version disk item c =
    delete_found ll_version disk item c (find_matching_item item c.cache.layers)

unfoldable pub update_merged_items : Text → Disk → List MergedItem → RepoCache → Method (Unit {0})
unfolding write_to_disk
update_merged_items ll_version disk items c =
    write_to_disk ll_version disk (record c { cache = record c.cache { merged = some items } })

-- `item.deleted.has_value() && item.deleted.value()`
abbrev pub is_deleted : Option Bool → Bool
is_deleted none = false
is_deleted (some b) = b

unfoldable pub query_existing_layer_item : RepoCache → List LayersItem
query_existing_layer_item c =
    keep_if (λ (item : LayersItem). not (is_deleted item.deleted)) c.cache.layers

-- A ref of the OSTree repository, and what reading its commit and its `info.json` gives.
pub record RefEntry : Type 0 where
  pub ref : Text
  pub commit : Option Text
  pub info : Option PackageInfoV2

-- `ref.substr(0, ref.find(':'))`, where there is a colon.
unfoldable pub before_colon : Text → Option Text
before_colon [] = none
before_colon (c ∷ cs) =
    let later = before_colon cs in if c == b':' then some [] else (later >>= λ t. some (c ∷ t))

unfoldable pub layer_of : RefEntry → Option LayersItem
unfolding before_colon
layer_of entry = before_colon entry.ref >>= λ repo. entry.commit >>= λ commit.
    entry.info >>= λ info.
    some (record { commit = commit; repo = repo; info = info; deleted = none })

-- The loop over the refs; a ref of which a step fails is passed over.
unfoldable pub layers_of : List RefEntry → List LayersItem
unfolding layer_of
layers_of [] = []
layers_of (entry ∷ entries) =
    let rest = layers_of entries in elim (layer_of entry) [ none ↦ rest | some item ↦ item ∷ rest ]

-- `refs` is what `ostree_repo_list_refs` gives, and `is_root` is `getuid() == 0`.
unfoldable pub rebuild_cache :
    Text → Disk → Bool → Option (List RefEntry) → RepoConfigV2 → RepoCache → Method (Unit {0})
unfolding layers_of write_to_disk
rebuild_cache ll_version disk is_root refs repo_config c =
    let cleared = record c {
      cache = record c.cache {
        ll_version = ll_version;
        config = repo_config;
        version = cache_file_version;
        layers = [];
      };
    } in
    elim refs [
      | none ↦ (err list_refs_failed, cleared)
      | some entries ↦
          let filled = set_layers (layers_of entries) cleared in
          if is_root then (ok tt, filled) else write_to_disk ll_version disk filled
    ]

-- What `create` finds at the path of the cache file: no answer, no file, a file that does not load,
-- or a cache.
pub data CacheFile : Type 0 where
  unknown missing invalid : CacheFile
  loaded : RepositoryCache → CacheFile

unfoldable pub create :
    Text
    → Disk
    → Bool
    → Option (List RefEntry)
    → CacheFile
    → RepoConfigV2
    → RepoCache
    → Method (Unit {0})
unfolding rebuild_cache
create ll_version disk is_root refs unknown repo_config c = (err check_exists_failed, c)
create ll_version disk is_root refs missing repo_config c =
    rebuild_cache ll_version disk is_root refs repo_config c
create ll_version disk is_root refs invalid repo_config c =
    rebuild_cache ll_version disk is_root refs repo_config c
create ll_version disk is_root refs (loaded cache) repo_config c =
    if not (text_eq cache.version cache_file_version) || not (text_eq cache.ll_version ll_version)
    then rebuild_cache ll_version disk is_root refs repo_config (record c { cache = cache })
    else (ok tt, record c { cache = record cache { config = repo_config } })
