-- ===== src/Repo/Store.antt =====
-- repo/ostree_repo.cpp: the layers that are installed, by `OSTreeRepo`: the names of their refs,
-- `getLayerItem`, `getLayerDir`, `markDeleted`, `removeOstreeRef` and `remove`.
pub mod Lookup
pub mod Mark
pub mod Remove
use linyaps.Prelude.{
  Bool, true, false, not, ◌&&◌, ◌||◌, Option, none, some, List, [], ◌∷◌, ◌++◌, Text, codes, text_eq,
  any, keep_if, is_empty, if◌then◌else◌,
}
use linyaps.Error.{
  Error, Result, ok, err, ◌>>=◌, or_fail, default_repo_missing, ambiguous_layer, layer_missing,
  layer_dir_missing, item_missing, module_empty, ostree_failed,
}
use linyaps.Qt.{Qt}
use linyaps.Semver.{Semver}
use linyaps.Package.Architecture
use linyaps.Package.Version
use linyaps.Package.Reference.{Reference, front}
use linyaps.Repo.Config.{RepoConfigV2, alias_or, get_default_repo}
use linyaps.Repo.Cache.{
  LayersItem, RepoCache, Disk, Method, set_layers, matches, find_matching_item, write_to_disk,
  delete_layer_item,
}
use linyaps.Repo.Cache.Query.{RepoCacheQuery, query_layer_item}
use linyaps.Utils.Transaction.{Transaction, empty, add_roll_back, commit, destroy}

-- What the object works on: the cache, the refs of the OSTree repository with their names in full,
-- and the directories below `layers`.
pub record OstreeRepo : Type 0 where
  pub cache : RepoCache
  pub refs : List Text
  pub layer_dirs : List Text

slash : Text → Text → Text
slash a b = a ++ (b'/' ∷ b)

unfoldable pub ostree_ref_from_layer_item : LayersItem → Text
unfolding slash
ostree_ref_from_layer_item layer = slash layer.info.channel (
    slash layer.info.id
      (slash layer.info.version (slash (front layer.info.arch) layer.info.module_name)))

unfoldable pub ostree_ref_spec_from_layer_item : LayersItem → Text
unfolding ostree_ref_from_layer_item
ostree_ref_spec_from_layer_item layer = layer.repo ++ (b':' ∷ ostree_ref_from_layer_item layer)

abbrev in_repo : Option Text → Text → Text
in_repo none spec = spec
in_repo (some repo) spec = repo ++ (b':' ∷ spec)

abbrev with_sub_ref : Option Text → Text → Text
with_sub_ref none spec = spec
with_sub_ref (some sub_ref) spec = spec ++ (b'_' ∷ sub_ref)

-- The module's name in older and in newer repositories.
abbrev pub old_module : Text → Text
old_module name = if text_eq name (codes "binary") then codes "runtime" else name

abbrev pub new_module : Text → Text
new_module name = if text_eq name (codes "runtime") then codes "binary" else name

unfoldable spec_of : Qt → Semver → Reference → Text → Text
unfolding slash
spec_of qt sv ref name = slash ref.channel (
    slash ref.id (
      slash (Version.to_string qt sv ref.version)
        (slash (Architecture.to_std_string ref.arch) name)))

unfoldable pub ostree_spec_from_reference : Qt → Semver → Reference → Option Text → Text → Text
unfolding spec_of
ostree_spec_from_reference qt sv ref repo name = in_repo repo (spec_of qt sv ref (old_module name))

unfoldable pub ostree_spec_from_reference_v2 :
    Qt → Semver → Reference → Option Text → Text → Option Text → Text
unfolding spec_of
ostree_spec_from_reference_v2 qt sv ref repo name sub_ref =
    with_sub_ref sub_ref (in_repo repo (spec_of qt sv ref (new_module name)))

-- `layer.deleted` of the layer that an iterator stands at, the first one that matches.
unfoldable pub set_deleted : LayersItem → Option Bool → List LayersItem → List LayersItem
unfolding matches
set_deleted item deleted [] = []
set_deleted item deleted (val ∷ vals) =
    let later = set_deleted item deleted vals in
    if matches item val then record val { deleted = deleted } ∷ vals else val ∷ later

abbrev pub write_deleted : LayersItem → Option Bool → RepoCache → RepoCache
write_deleted item deleted c = set_layers (set_deleted item deleted c.cache.layers) c

-- The end of `markDeleted`, with the transaction that is destroyed at its return.
unfoldable finish_mark : Transaction RepoCache → Method (Unit {0}) → Method (Unit {0})
unfolding commit destroy
finish_mark transaction (ok done, c) = (ok tt, destroy (commit transaction) c)
finish_mark transaction (err e, c) = (err e, destroy transaction c)

unfoldable pub mark_found :
    Text → Disk → LayersItem → Bool → RepoCache → Option LayersItem → Method (Unit {0})
unfolding finish_mark set_deleted add_roll_back write_to_disk
mark_found ll_version disk item deleted c none = (err item_missing, c)
mark_found ll_version disk item deleted c (some it) =
    finish_mark (add_roll_back (write_deleted item it.deleted) empty)
      (write_to_disk ll_version disk (write_deleted item (if deleted then some true else none) c))

-- The rest of `markDeleted`, once the layer is found.
unfoldable pub mark_item : Text → Disk → Bool → RepoCache → Result LayersItem → Method (Unit {0})
unfolding mark_found find_matching_item
mark_item ll_version disk deleted c (err e) = (err e, c)
mark_item ll_version disk deleted c (ok item) =
    mark_found ll_version disk item deleted c (find_matching_item item c.cache.layers)

-- Whether OSTree can resolve a ref that is there, and whether it lets it go. Where the ref does not
-- resolve, for whatever reason, it is left, and the code goes on.
unfoldable pub drop_ref : Bool → Bool → Text → List Text → Option (List Text)
drop_ref resolves lets ref refs =
    if any (text_eq ref) refs && resolves
    then if lets then some (keep_if (λ other. not (text_eq ref other)) refs) else none
    else some refs

unfoldable pub delete_item : Text → Disk → LayersItem → OstreeRepo → Result (Unit {0}) × OstreeRepo
unfolding delete_layer_item
delete_item ll_version disk layer s =
    let deleted = delete_layer_item ll_version disk layer s.cache in
    (deleted.0, record s { cache = deleted.1 })

unfoldable drop_then :
    Text → Disk → LayersItem → OstreeRepo → Option (List Text) → Result (Unit {0}) × OstreeRepo
unfolding delete_item
drop_then ll_version disk layer s none = (err ostree_failed, s)
drop_then ll_version disk layer s (some refs) =
    delete_item ll_version disk layer (record s { refs = refs })

unfoldable pub remove_ostree_ref :
    Text → Disk → Bool → Bool → LayersItem → OstreeRepo → Result (Unit {0}) × OstreeRepo
unfolding drop_then drop_ref
remove_ostree_ref ll_version disk resolves lets layer s =
    drop_then ll_version disk layer s
      (drop_ref resolves lets (ostree_ref_spec_from_layer_item layer) s.refs)

unfoldable pub layer_dir : List Text → LayersItem → Result Text
layer_dir layer_dirs layer =
    if not (any (text_eq layer.commit) layer_dirs) then err layer_dir_missing else ok layer.commit

-- The layer's directory, where it is there and can be removed, is removed; that it is not, is only
-- logged. Links in its place, which older releases made, are not modelled.
unfoldable pub dirs_left : Bool → List Text → Result Text → List Text
dirs_left removes layer_dirs (err e) = layer_dirs
dirs_left removes layer_dirs (ok dir) =
    if removes then keep_if (λ other. not (text_eq dir other)) layer_dirs else layer_dirs

unfoldable pub remove_dir : Bool → LayersItem → OstreeRepo → OstreeRepo
unfolding layer_dir dirs_left
remove_dir removes layer s = record s {
  layer_dirs = dirs_left removes s.layer_dirs (layer_dir s.layer_dirs layer);
}

abbrev pub after_ref :
    Bool → LayersItem → Result (Unit {0}) × OstreeRepo → Result (Unit {0}) × OstreeRepo
after_ref removes layer (err e, s) = (err e, s)
after_ref removes layer (ok done, s) = (ok tt, remove_dir removes layer s)

unfoldable pub remove_layer :
    Text
    → Disk
    → Bool
    → Bool
    → Bool
    → OstreeRepo
    → Result LayersItem
    → Result (Unit {0}) × OstreeRepo
unfolding remove_ostree_ref remove_dir
remove_layer ll_version disk resolves lets removes s (err e) = (err e, s)
remove_layer ll_version disk resolves lets removes s (ok layer) =
    after_ref removes layer (remove_ostree_ref ll_version disk resolves lets layer s)

-- The first of what a query finds, or else the next step.
abbrev pub first_or : List LayersItem → Result LayersItem → Result LayersItem
first_or [] next = next
first_or (item ∷ items) next = ok item

-- In the default repository there may be one such layer only.
abbrev pub only_or : List LayersItem → Result LayersItem → Result LayersItem
only_or [] next = next
only_or (item ∷ []) next = ok item
only_or (item ∷ other ∷ items) next = err ambiguous_layer

module _ (qt : Qt) (sv : Semver) where
  unfoldable pub item_query : Reference → Option Text → Text → Option Text → RepoCacheQuery
  item_query ref repo name sub_ref = record {
    id = some ref.id;
    repo = repo;
    channel = some ref.channel;
    version = some (Version.to_string qt sv ref.version);
    module_name = some name;
    uuid = sub_ref;
    deleted = none;
  }

  unfoldable pub get_layer_item :
      RepoCache → RepoConfigV2 → Reference → Text → Option Text → Result LayersItem
  unfolding item_query
  get_layer_item c cfg ref asked sub_ref = do
    default ← or_fail default_repo_missing (get_default_repo cfg)
    let name = new_module asked
    let alias = alias_or default.alias default.name
    let in_any = query_layer_item qt sv c (item_query ref none name sub_ref)
    let as_runtime = query_layer_item qt sv c (item_query ref none (codes "runtime") sub_ref)
    only_or (query_layer_item qt sv c (item_query ref (some alias) name sub_ref)) (
        first_or in_any (
          if not (text_eq name (codes "binary"))
          then err layer_missing
          else first_or as_runtime (err layer_missing)))

  unfoldable pub get_layer_dir :
      OstreeRepo → RepoConfigV2 → Reference → Text → Option Text → Result Text
  unfolding get_layer_item layer_dir
  get_layer_dir s cfg ref asked sub_ref = do
    layer ← get_layer_item s.cache cfg ref asked sub_ref
    layer_dir s.layer_dirs layer

  unfoldable pub mark_deleted :
      Text
      → Disk
      → RepoConfigV2
      → Reference
      → Bool
      → Text
      → Option Text
      → RepoCache
      → Method (Unit {0})
  unfolding mark_item get_layer_item
  mark_deleted ll_version disk cfg ref deleted asked sub_ref c =
      mark_item ll_version disk deleted c (get_layer_item c cfg ref asked sub_ref)

  -- `resolves`, `lets` and `removes` are whether OSTree and the file system do what they are told.
  unfoldable pub remove :
      Text
      → Disk
      → Bool
      → Bool
      → Bool
      → RepoConfigV2
      → Reference
      → Text
      → Option Text
      → OstreeRepo
      → Result (Unit {0}) × OstreeRepo
  unfolding remove_layer get_layer_item
  remove ll_version disk resolves lets removes cfg ref asked sub_ref s =
      if is_empty asked
      then (err module_empty, s)
      else remove_layer ll_version disk resolves lets removes s
          (get_layer_item s.cache cfg ref asked sub_ref)
