-- ===== src/Repo/Modules.antt =====
-- repo/ostree_repo.cpp: the modules of a package, in remote repositories and installed, and the
-- directories that they are merged into.
pub mod Listed
use linyaps.Prelude.{
  Bool, true, false, not, ◌&&◌, ◌||◌, Option, none, some, List, [], ◌∷◌, ◌++◌, map, Text, codes,
  text_eq, lex_lt, any, keep_if, is_empty, if◌then◌else◌,
}
use linyaps.Prelude.Sort.{sort}
use linyaps.Error.{
  Error, Result, ok, err, ◌>>=◌, bad_optional_access, no_module, merged_missing, ostree_failed,
  open_failed,
}
use linyaps.Qt.{Qt}
use linyaps.Semver.{Semver}
use linyaps.Package.Version
use linyaps.Package.Info.{PackageInfoV2}
use linyaps.Package.Reference.{Reference, front}
use linyaps.Package.FuzzyReference
use linyaps.Package.FuzzyReference.{FuzzyReference}
use linyaps.Repo.Config.{Repo, RepoConfigV2, get_highest_priority_repos}
use linyaps.Repo.Cache.{
  LayersItem, MergedItem, RepoCache, Disk, Method, query_existing_layer_item, update_merged_items,
}
use linyaps.Repo.Cache.Query.{RepoCacheQuery, query_layer_item}
use linyaps.Repo.Store.{OstreeRepo, get_layer_item, layer_dir}

abbrev pub includes : List Text → Text → Bool
includes names name = any (text_eq name) names

-- Whether the loop of `getRemoteModuleList` takes a module.
unfoldable pub takes_module : Option (List Text) → Text → Bool
takes_module none name = true
takes_module (some names) name =
    if includes names name
    then true
    else text_eq name (codes "binary") && includes names (codes "runtime")

unfoldable pub taken_modules : Option (List Text) → List PackageInfoV2 → List Text
unfolding takes_module
taken_modules filter [] = []
taken_modules filter (info ∷ infos) =
    let rest = taken_modules filter infos in
    if takes_module filter info.module_name then info.module_name ∷ rest else rest

-- Where `binary` is asked for and the remote repository has none, `runtime` is taken.
unfoldable pub with_runtime : List Text → List Text → List Text
with_runtime names modules =
    if includes names (codes "binary") && not (includes modules (codes "binary"))
    then modules ++ codes "runtime" ∷ []
    else modules

-- That the value of an absent filter is read ends the program, which is an error here.
unfoldable pub add_runtime : Option (List Text) → List Text → Result (List Text)
unfolding with_runtime
add_runtime none modules = err bad_optional_access
add_runtime (some names) modules = ok (with_runtime names modules)

-- `std::unique` and `erase`: a text that equals the one before it is left out.
unfoldable pub unique_after : Text → List Text → List Text
unique_after last [] = []
unique_after last (name ∷ names) =
    let rest = unique_after name names in if text_eq last name then rest else name ∷ rest

unfoldable pub unique : List Text → List Text
unfolding unique_after
unique [] = []
unique (name ∷ names) = name ∷ unique_after name names

-- The code after the request.
unfoldable pub list_modules : Option (List Text) → List PackageInfoV2 → Result (List Text)
unfolding taken_modules add_runtime sort unique
list_modules filter [] = ok []
list_modules filter (info ∷ infos) = do
  modules ← add_runtime filter (taken_modules filter (info ∷ infos))
  ok (unique (sort lex_lt modules))

module _ (qt : Qt) (sv : Semver) where
  -- `list` is `listRemote`. That the failure of the request is reported with the value of another
  -- result is left out: here it is handed on.
  unfoldable pub get_remote_module_list :
      (FuzzyReference → Repo → Result (List PackageInfoV2))
      → Reference
      → Option (List Text)
      → Repo
      → Result (List Text)
  unfolding list_modules
  get_remote_module_list list ref filter repo = do
    fuzzy ←
        FuzzyReference.create (some ref.channel) ref.id (some (Version.to_string qt sv ref.version))
          (some ref.arch)
    infos ← list fuzzy repo
    list_modules filter infos

-- With the repository that has them.
abbrev with_modules : Repo → Result (List Text) → Result (Repo × List Text)
with_modules repo (ok modules) = ok (repo, modules)
with_modules repo (err e) = err e

unfoldable pub nonempty_or :
    Repo → Result (List Text) → Result (Repo × List Text) → Result (Repo × List Text)
nonempty_or repo (ok []) next = next
nonempty_or repo (ok (name ∷ names)) next = ok (repo, name ∷ names)
nonempty_or repo (err e) next = err e

unfoldable pub first_with_modules :
    (Repo → Result (List Text)) → List Repo → Result (Repo × List Text)
unfolding nonempty_or
first_with_modules list [] = err no_module
first_with_modules list (repo ∷ repos) =
    let next = first_with_modules list repos in nonempty_or repo (list repo) next

-- Of no repositories the code reads a front that is not there; here this is an error.
unfoldable pub of_front : (Repo → Result (List Text)) → List Repo → Result (Repo × List Text)
of_front list [] = err no_module
of_front list (repo ∷ repos) = with_modules repo (list repo)

-- `list` is `getRemoteModuleList` for the reference and the filter.
unfoldable pub get_remote_module_list_by_priority :
    (Repo → Result (List Text)) → RepoConfigV2 → Bool → Option Repo → Result (Repo × List Text)
unfolding first_with_modules of_front
get_remote_module_list_by_priority list cfg only_highest (some repo) = with_modules repo (list repo)
get_remote_module_list_by_priority list cfg only_highest none =
    if only_highest
    then of_front list (get_highest_priority_repos cfg)
    else first_with_modules list (get_highest_priority_repos cfg)

-- `lhs.info.packageInfoV2Module < rhs.info.packageInfoV2Module`
abbrev pub module_before : LayersItem → LayersItem → Bool
module_before lhs rhs = lex_lt lhs.info.module_name rhs.info.module_name

unfoldable pub module_names : List LayersItem → List Text
module_names [] = []
module_names (layer ∷ layers) = layer.info.module_name ∷ module_names layers

module _ (qt : Qt) (sv : Semver) where
  abbrev of_reference : Reference → RepoCacheQuery
  of_reference ref = record {
    id = some ref.id;
    repo = none;
    channel = some ref.channel;
    version = some (Version.to_string qt sv ref.version);
    module_name = none;
    uuid = none;
    deleted = none;
  }

  unfoldable pub get_module_list : RepoCache → Reference → List Text
  unfolding module_names sort
  get_module_list c ref =
      module_names (sort module_before (query_layer_item qt sv c (of_reference ref)))

abbrev is_of : Text → Option Text → Bool
is_of commit none = false
is_of commit (some binary_commit) = text_eq binary_commit commit

-- The directory of the first item merged from the layer's commit whose directory is there; `none`
-- where there is no such item.
unfoldable pub merged_dir : List Text → Text → List MergedItem → Option Text
merged_dir dirs commit [] = none
merged_dir dirs commit (item ∷ items) =
    let later = merged_dir dirs commit items in
    if is_of commit item.binary_commit
    then if includes dirs item.id then some item.id else later
    else later

abbrev merged_in : List Text → Text → Option (List MergedItem) → Option Text
merged_in dirs commit none = none
merged_in dirs commit (some items) = merged_dir dirs commit items

-- Of the directories below `merged` and `layers`.
pub data LayerDir : Type 0 where
  merged : Text → LayerDir
  layer : Text → LayerDir

abbrev as_layer : Result Text → Result LayerDir
as_layer (ok dir) = ok (layer dir)
as_layer (err e) = err e

abbrev found_or : Option Text → Result LayerDir → Result LayerDir
found_or (some dir) next = ok (merged dir)
found_or none next = next

-- `dirs` is what is below `merged`.
unfoldable pub get_merged_module_dir : List Text → OstreeRepo → LayersItem → Bool → Result LayerDir
unfolding merged_dir layer_dir
get_merged_module_dir dirs s item fallback =
    found_or (merged_in dirs item.commit s.cache.cache.merged)
      (if fallback then as_layer (layer_dir s.layer_dirs item) else err merged_missing)

module _ (qt : Qt) (sv : Semver) where
  unfoldable pub get_merged_dir_of :
      List Text → OstreeRepo → RepoConfigV2 → Reference → Bool → Result LayerDir
  unfolding get_merged_module_dir
  get_merged_dir_of dirs s cfg ref fallback = do
    item ← get_layer_item qt sv s.cache cfg ref (codes "binary") none
    get_merged_module_dir dirs s item fallback
