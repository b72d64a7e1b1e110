-- ===== src/Repo/Resolve.antt =====
-- repo/ostree_repo.cpp: `clearReferenceLocal`, `clearReference`, `getRemoteReferenceByPriority` and
-- the lists of what is installed.
pub mod Latest
pub mod Priority
use linyaps.Prelude.{
  Bool, true, false, not, ◌&&◌, ◌||◌, Option, none, some, List, [], ◌∷◌, ◌++◌, Text, text_eq,
  is_empty, if◌then◌else◌,
}
use linyaps.Prelude.Best.{best_from}
use linyaps.Error.{
  Error, Result, ok, err, ◌>>=◌, arch_mismatch, app_not_found_from_local, layer_incompatible,
  broken_cache, app_not_found_from_remote, app_install_not_found_from_remote,
}
use linyaps.Qt.{Qt}
use linyaps.Semver.{Semver}
use linyaps.Package.Architecture.{Architecture, arch_eq}
use linyaps.Package.Version
use linyaps.Package.Version.{Version, default_options}
use linyaps.Package.Info.{PackageInfoV2}
use linyaps.Package.Reference
use linyaps.Package.Reference.{Reference}
use linyaps.Package.FuzzyReference.{FuzzyReference}
use linyaps.Repo.Config.{Repo, RepoConfigV2, alias_or, get_highest_priority_repos}
use linyaps.Repo.Cache.{LayersItem, RepoCache, is_deleted, query_existing_layer_item}
use linyaps.Repo.Cache.Query.{RepoCacheQuery, query_layer_item}
use linyaps.Repo.Remote.{clear_remote}

-- `code() == AppNotFoundFromRemote`
abbrev pub is_not_found : Error → Bool
is_not_found app_not_found_from_remote = true
is_not_found e = false

-- `host` is the result of `Architecture::currentCPUArchitecture()`.
unfoldable pub check_arch : Result Architecture → Option Architecture → Result (Unit {0})
check_arch host none = ok tt
check_arch (err e) (some arch) = err e
check_arch (ok current) (some arch) =
    if not (arch_eq current arch) then err arch_mismatch else ok tt

abbrev pub of_id : Text → RepoCacheQuery
of_id id = record {
  id = some id;
  repo = none;
  channel = none;
  version = none;
  module_name = none;
  uuid = none;
  deleted = none;
}

pub record ClearReferenceOption : Type 0 where
  pub force_remote : Bool
  pub fallback_to_remote : Bool
  pub semantic_matching : Bool

pub record ReferenceWithRepo : Type 0 where
  pub repo : Repo
  pub reference : Reference

-- A turn of the loop: the result in a repository, and those of the repositories after it.
unfoldable pub add_result :
    Repo → Result (List ReferenceWithRepo) → Result Reference → Result (List ReferenceWithRepo)
add_result repo rest (ok reference) = do
  results ← rest
  ok (record { repo = repo; reference = reference } ∷ results)
add_result repo rest (err e) = if is_not_found e then rest else err e

unfoldable pub clear_each : (Repo → Result Reference) → List Repo → Result (List ReferenceWithRepo)
unfolding add_result
clear_each clear [] = ok []
clear_each clear (repo ∷ repos) =
    let rest = clear_each clear repos in add_result repo rest (clear repo)

first_only : (Repo → Result Reference) → List Repo → Result ReferenceWithRepo
first_only clear [] = err app_install_not_found_from_remote
first_only clear (repo ∷ repos) = do
  reference ← clear repo
  ok (record { repo = repo; reference = reference })

module _ (qt : Qt) (sv : Semver) where
  -- `version`, of a version that is given and not empty.
  unfoldable pub parse_wanted : Option Text → Result (Option Version)
  parse_wanted none = ok none
  parse_wanted (some raw) =
      if is_empty raw then ok none else do v ← Version.parse qt sv raw default_options; ok (some v)

  -- Whether the loop takes a layer of this version.
  unfoldable pub wants : Option Version → Bool → Version → Bool
  wants none semantic version = true
  wants (some wanted) semantic version =
      semantic && Version.semantic_match qt sv version (Version.to_string qt sv wanted)
      || Version.eq qt sv version wanted

  -- `qFatal` ends the program where a version does not parse; here this is an error.
  unfoldable take_or :
      Option Version → Bool → LayersItem → Result LayersItem → Result Version → Result LayersItem
  unfolding wants
  take_or wanted semantic item rest (err e) = err broken_cache
  take_or wanted semantic item rest (ok version) =
      if wants wanted semantic version then ok item else rest

  unfoldable pub find_local : Option Version → Bool → List LayersItem → Result LayersItem
  unfolding take_or
  find_local wanted semantic [] = err layer_incompatible
  find_local wanted semantic (item ∷ items) =
      let rest = find_local wanted semantic items in
      if is_deleted item.deleted
      then rest
      else take_or wanted semantic item rest (Version.parse qt sv item.info.version default_options)

  unfoldable pub find_available : Option Text → Bool → List LayersItem → Result LayersItem
  unfolding parse_wanted find_local
  find_available version semantic [] = err app_not_found_from_local
  find_available version semantic (item ∷ items) = do
    wanted ← parse_wanted version
    find_local wanted semantic (item ∷ items)

  -- The layer whose reference `clearReferenceLocal` gives.
  unfoldable pub find_layer :
      Result Architecture → RepoCache → FuzzyReference → Bool → Result LayersItem
  unfolding check_arch find_available
  find_layer host c fuzzy semantic = do
    checked ← check_arch host fuzzy.arch
    find_available fuzzy.version semantic (query_layer_item qt sv c (of_id fuzzy.id))

  unfoldable pub clear_reference_local :
      Result Architecture → RepoCache → FuzzyReference → Bool → Result Reference
  unfolding find_layer
  clear_reference_local host c fuzzy semantic = do
    found ← find_layer host c fuzzy semantic
    Reference.from_package_info qt sv found.info

  -- `a.reference.version < b.reference.version`, for the item that takes the place of the largest.
  abbrev pub above_largest : ReferenceWithRepo → ReferenceWithRepo → Bool
  above_largest b a = Version.lt qt sv a.reference.version b.reference.version

  -- `std::max_element`
  unfoldable pub newest_result : List ReferenceWithRepo → Result ReferenceWithRepo
  newest_result [] = err app_install_not_found_from_remote
  newest_result (first ∷ results) = ok (best_from above_largest first results)

  module _ (list : FuzzyReference → Repo → Result (List PackageInfoV2)) where
    -- The local result, or the remote one.
    unfoldable pub or_remote : Bool → Result Reference → Result Reference → Result Reference
    or_remote fallback (ok reference) remote = ok reference
    or_remote fallback (err e) remote = if not fallback then err e else remote

    -- `list` is `listRemote`, and `asked` the module.
    unfoldable pub clear_reference :
        Result Architecture
        → RepoCache
        → RepoConfigV2
        → FuzzyReference
        → ClearReferenceOption
        → Text
        → Option Text
        → Result Reference
    unfolding clear_reference_local clear_remote or_remote
    clear_reference host c cfg fuzzy opts asked repo =
        let remote = clear_remote qt sv list cfg fuzzy opts.semantic_matching asked repo in
        if not opts.force_remote
        then or_remote opts.fallback_to_remote
            (clear_reference_local host c fuzzy opts.semantic_matching) remote
        else remote

    abbrev forced : Bool → ClearReferenceOption
    forced semantic = record {
      force_remote = true;
      fallback_to_remote = true;
      semantic_matching = semantic;
    }

    unfoldable pub clear_in :
        Result Architecture
        → RepoCache
        → RepoConfigV2
        → FuzzyReference
        → Bool
        → Text
        → Repo
        → Result Reference
    unfolding clear_reference
    clear_in host c cfg fuzzy semantic asked repo =
        clear_reference host c cfg fuzzy (forced semantic) asked
          (some (alias_or repo.alias repo.name))

    unfoldable pub get_remote_reference_by_priority :
        Result Architecture
        → RepoCache
        → RepoConfigV2
        → FuzzyReference
        → Bool
        → Bool
        → Text
        → Result ReferenceWithRepo
    unfolding clear_in first_only clear_each newest_result
    get_remote_reference_by_priority host c cfg fuzzy only_highest semantic asked =
        let repos = get_highest_priority_repos cfg in
        let clear = clear_in host c cfg fuzzy semantic asked in
        if only_highest
        then first_only clear repos
        else do results ← clear_each clear repos; newest_result results

-- The second test for deleted layers is in the code.
unfoldable pub infos_not_deleted : List LayersItem → List PackageInfoV2
infos_not_deleted [] = []
infos_not_deleted (item ∷ items) =
    let rest = infos_not_deleted items in if is_deleted item.deleted then rest else item.info ∷ rest

unfoldable pub list_local : RepoCache → List PackageInfoV2
unfolding infos_not_deleted
list_local c = infos_not_deleted (query_existing_layer_item c)

unfoldable pub list_layer_item : RepoCache → List LayersItem
list_layer_item c = query_existing_layer_item c

-- `std::find_if` by the identifier, and `erase` of what it finds.
unfoldable pub find_info : Text → List PackageInfoV2 → Option PackageInfoV2
find_info id [] = none
find_info id (info ∷ infos) =
    let later = find_info id infos in if text_eq id info.id then some info else later

unfoldable pub erase_info : Text → List PackageInfoV2 → List PackageInfoV2
erase_info id [] = []
erase_info id (info ∷ infos) =
    let later = erase_info id infos in if text_eq id info.id then infos else info ∷ later

module _ (qt : Qt) (sv : Semver) where
  -- A turn of the loop of `listLocalLatest`, with the layer found for the identifier.
  unfoldable add_latest :
      PackageInfoV2 → List PackageInfoV2 → Option PackageInfoV2 → Result (List PackageInfoV2)
  unfolding erase_info
  add_latest info infos none = ok (infos ++ info ∷ [])
  add_latest info infos (some it) = do
    info_version ← Version.parse qt sv it.version default_options
    item_version ← Version.parse qt sv info.version default_options
    if Version.le qt sv item_version info_version
        then ok infos
        else ok (erase_info info.id infos ++ info ∷ [])

  unfoldable latest_loop : List PackageInfoV2 → List LayersItem → Result (List PackageInfoV2)
  unfolding add_latest find_info
  latest_loop infos [] = ok infos
  latest_loop infos (item ∷ items) =
      (if is_deleted item.deleted
        then ok infos
        else add_latest item.info infos (find_info item.info.id infos))
      >>= λ next. latest_loop next items

  unfoldable pub list_local_latest : RepoCache → Result (List PackageInfoV2)
  unfolding latest_loop
  list_local_latest c = latest_loop [] (query_existing_layer_item c)
