-- ===== src/Repo/Merge.antt =====
-- repo/ostree_repo.cpp: `mergeModules`, which gathers the modules of each package in one directory.
pub mod Kept
pub mod Covered
use linyaps.Prelude.{
  Bool, true, false, not, ◌&&◌, ◌||◌, Option, none, some, List, [], ◌∷◌, ◌++◌, Text, codes, text_eq,
  lex_lt, any, keep_if, is_empty, length, ltb, if◌then◌else◌,
}
use linyaps.Prelude.Sort.{sort}
use linyaps.Error.{
  Error, Result, ok, err, ostree_failed, open_failed, layer_missing, module_missing,
}
use linyaps.Qt.{Qt}
use linyaps.Semver.{Semver}
use linyaps.Package.Architecture
use linyaps.Package.Version
use linyaps.Package.Reference.{Reference, front}
use linyaps.Repo.Cache.{
  LayersItem, MergedItem, RepoCache, Disk, query_existing_layer_item, update_merged_items,
}
use linyaps.Repo.Modules.{includes, module_before}

-- What the object works on here: the cache, and the names of what is below `merged`.
pub record MergedDirs : Type 0 where
  pub cache : RepoCache
  pub dirs : List Text

-- How far the file system and OSTree let the making of a directory come: a step before the old
-- directory is removed fails, the renaming fails, or none does. The temporary directory that a
-- failure leaves is not modelled.
pub data Making : Type 0 where
  not_made not_renamed made : Making

-- What is outside of the object: the hexadecimal SHA-256 of texts put together, the file system for
-- a directory's name and the commits put into it, whether `merged` can be listed, and whether an
-- entry of it can be removed.
pub record MergeSystem : Type 0 where
  pub hash : List Text → Text
  pub making : Text → List Text → Making
  pub lists : Bool
  pub removes : Text → Bool

unfoldable pub group_key : LayersItem → Text
group_key layer = layer.info.id ++ (b'/' ∷ (layer.info.version ++ (b'/' ∷ front layer.info.arch)))

-- `layerGroup[groupKey].push_back(layer)`, of a map in the order of its keys.
unfoldable pub push_layer :
    Text → LayersItem → List (Text × List LayersItem) → List (Text × List LayersItem)
push_layer key layer [] = (key, layer ∷ []) ∷ []
push_layer key layer ((name, layers) ∷ groups) =
    let later = push_layer key layer groups in
    if text_eq key name
    then (name, layers ++ layer ∷ []) ∷ groups
    else if lex_lt key name
    then (key, layer ∷ []) ∷ (name, layers) ∷ groups
    else (name, layers) ∷ later

unfoldable pub group_layers :
    List LayersItem → List (Text × List LayersItem) → List (Text × List LayersItem)
unfolding group_key push_layer
group_layers [] groups = groups
group_layers (layer ∷ layers) groups =
    group_layers layers (push_layer (group_key layer) layer groups)

unfoldable pub commits_of : List LayersItem → List Text
commits_of [] = []
commits_of (layer ∷ layers) = layer.commit ∷ commits_of layers

unfoldable pub modules_of : List LayersItem → List Text
modules_of [] = []
modules_of (layer ∷ layers) = layer.info.module_name ∷ modules_of layers

-- The commit of the last layer that is `binary` or `runtime`.
unfoldable pub binary_commit : Text → List LayersItem → Text
binary_commit last [] = last
binary_commit last (layer ∷ layers) =
    binary_commit
      (if text_eq layer.info.module_name (codes "binary")
          || text_eq layer.info.module_name (codes "runtime")
        then layer.commit
        else last)
      layers

unfoldable pub texts_eq : List Text → List Text → Bool
texts_eq [] [] = true
texts_eq [] (y ∷ ys) = false
texts_eq (x ∷ xs) [] = false
texts_eq (x ∷ xs) (y ∷ ys) = text_eq x y && texts_eq xs ys

-- The first item that has the identifier, if it has the same commits.
unfoldable pub unchanged_item : Text → List Text → List MergedItem → Option MergedItem
unfolding texts_eq
unchanged_item id commits [] = none
unchanged_item id commits (merge ∷ merges) =
    let later = unchanged_item id commits merges in
    if text_eq merge.id id
    then if texts_eq merge.commits commits then some merge else none
    else later

abbrev pub items_or_none : Option (List MergedItem) → List MergedItem
items_or_none none = []
items_or_none (some items) = items

abbrev pub without : Text → List Text → List Text
without id dirs = keep_if (λ dir. not (text_eq id dir)) dirs

-- The new items so far, and the directories.
abbrev pub Progress : Type 0
Progress = List MergedItem × List Text

unfoldable pub make_dir :
    MergedItem → List MergedItem → List Text → Making → Result (List MergedItem) × List Text
make_dir item items dirs not_made = (err ostree_failed, dirs)
make_dir item items dirs not_renamed = (err ostree_failed, without item.id dirs)
make_dir item items dirs made = (ok (items ++ item ∷ []), item.id ∷ without item.id dirs)

unfoldable pub keep_or_make :
    MergeSystem
    → MergedItem
    → List MergedItem
    → List Text
    → Option MergedItem
    → Result (List MergedItem) × List Text
unfolding make_dir
keep_or_make system item items dirs (some merge) = (ok (items ++ merge ∷ []), dirs)
keep_or_make system item items dirs none =
    make_dir item items dirs (system.making item.id item.commits)

-- The item of a group, its layers in the order of their modules.
unfoldable pub merged_of : MergeSystem → Text → List LayersItem → MergedItem
unfolding commits_of modules_of binary_commit
merged_of system name layers = record {
  binary_commit = some (binary_commit [] layers);
  commits = commits_of layers;
  id = system.hash (commits_of layers);
  modules = modules_of layers;
  name = some name;
}

unfoldable pub merge_sorted :
    MergeSystem
    → List MergedItem
    → Text
    → List LayersItem
    → List MergedItem
    → List Text
    → Result (List MergedItem) × List Text
unfolding merged_of keep_or_make unchanged_item
merge_sorted system old name layers items dirs =
    let item = merged_of system name layers in
    if is_empty (binary_commit [] layers)
    then (ok items, dirs)
    else keep_or_make system item items dirs (unchanged_item item.id item.commits old)

-- A turn of the loop; a single layer is not merged.
unfoldable pub merge_group :
    MergeSystem
    → List MergedItem
    → Text
    → List LayersItem
    → List MergedItem
    → List Text
    → Result (List MergedItem) × List Text
unfolding merge_sorted sort
merge_group system old name [] items dirs = merge_sorted system old name [] items dirs
merge_group system old name (layer ∷ []) items dirs = (ok items, dirs)
merge_group system old name (layer ∷ other ∷ layers) items dirs =
    merge_sorted system old name (sort module_before (layer ∷ other ∷ layers)) items dirs

abbrev pub and_then :
    (List MergedItem → List Text → Result (List MergedItem) × List Text)
    → Result (List MergedItem) × List Text
    → Result (List MergedItem) × List Text
and_then next (ok items, dirs) = next items dirs
and_then next (err e, dirs) = (err e, dirs)

unfoldable pub merge_groups :
    MergeSystem
    → List MergedItem
    → List (Text × List LayersItem)
    → List MergedItem
    → List Text
    → Result (List MergedItem) × List Text
unfolding merge_group
merge_groups system old [] items dirs = (ok items, dirs)
merge_groups system old ((name, layers) ∷ groups) items dirs =
    and_then (merge_groups system old groups) (merge_group system old name layers items dirs)

-- `entry.path().filename() == mergedItem.id` for some item.
abbrev pub is_merged : List MergedItem → Text → Bool
is_merged items dir = any (λ (item : MergedItem). text_eq dir item.id) items

unfoldable pub clean_dirs : MergeSystem → List MergedItem → List Text → List Text
clean_dirs system items dirs = keep_if (λ dir. is_merged items dir || not (system.removes dir)) dirs

-- Once the items are in the cache.
unfoldable pub clean_up :
    MergeSystem
    → List MergedItem
    → List Text
    → Result (Unit {0}) × RepoCache
    → Result (Unit {0}) × MergedDirs
unfolding clean_dirs
clean_up system items dirs (err e, c) = (err e, record { cache = c; dirs = dirs })
clean_up system items dirs (ok done, c) =
    if not system.lists
    then (err open_failed, record { cache = c; dirs = dirs })
    else (ok tt, record { cache = c; dirs = clean_dirs system items dirs })

unfoldable pub save_merged :
    Text
    → Disk
    → MergeSystem
    → RepoCache
    → Result (List MergedItem) × List Text
    → Result (Unit {0}) × MergedDirs
unfolding clean_up update_merged_items
save_merged ll_version disk system c (err e, dirs) = (err e, record { cache = c; dirs = dirs })
save_merged ll_version disk system c (ok items, dirs) =
    clean_up system items dirs (update_merged_items ll_version disk items c)

unfoldable pub merge_modules :
    Text → Disk → MergeSystem → MergedDirs → Result (Unit {0}) × MergedDirs
unfolding save_merged merge_groups group_layers
merge_modules ll_version disk system s = save_merged ll_version disk system s.cache (
    merge_groups system (items_or_none s.cache.cache.merged)
      (group_layers (query_existing_layer_item s.cache) []) [] s.dirs)

-- `getMergedModuleDir` for the modules that are asked for: the layers of the package that have one of
-- them.
unfoldable pub layers_loaded : Text → Text → Text → List Text → List LayersItem → List LayersItem
layers_loaded id version arch names [] = []
layers_loaded id version arch names (layer ∷ layers) =
    let rest = layers_loaded id version arch names layers in
    if not (text_eq layer.info.id id)
      || not (text_eq layer.info.version version)
      || not (text_eq (front layer.info.arch) arch)
    then rest
    else if not (includes names layer.info.module_name)
    then rest
    else layer ∷ rest

unfoldable merge_loaded : MergeSystem → List Text → List LayersItem → Result Text
unfolding commits_of
merge_loaded system names [] = err layer_missing
merge_loaded system names (layer ∷ layers) =
    let commits = commits_of (layer ∷ layers) in
    let merge_tmp = codes "tmp_" ++ system.hash commits in
    if ltb (length commits) (length names)
    then err module_missing
    else elim (system.making merge_tmp commits) [
      | made ↦ ok merge_tmp
      | not_made ↦ err ostree_failed
      | not_renamed ↦ err ostree_failed
    ]

module _ (qt : Qt) (sv : Semver) where
  unfoldable pub get_merged_of_modules :
      MergeSystem → RepoCache → Reference → List Text → Result Text
  unfolding layers_loaded merge_loaded
  get_merged_of_modules system c ref names = merge_loaded system names (
      layers_loaded ref.id (Version.to_string qt sv ref.version)
        (Architecture.to_std_string ref.arch) names (query_existing_layer_item c))
