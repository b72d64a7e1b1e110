-- ===== src/Samples/Stores.antt =====
-- The theorems on references that are resolved, and on installed layers, at concrete inputs.
use linyaps.Prelude.{
  ◌≡◌, refl, true, false, ◌&&◌, none, some, [], ◌∷◌, List, Text, codes, text_eq, All,
}
use linyaps.Error.{Result, ok}
use linyaps.Package.Architecture.{x86_64}
use linyaps.Package.Version.{version_v1}
use linyaps.Package.Info.{PackageInfoV2}
use linyaps.Package.Reference.{Reference}
use linyaps.Package.FuzzyReference.{FuzzyReference}
use linyaps.Repo.Config.{Repo, get_highest_priority_repos}
use linyaps.Repo.Cache.{query_existing_layer_item, LayersItem, MergedItem, all_written}
use linyaps.Repo.Cache.Query.{selects}
use linyaps.Repo.Remote.{clear_remote}
use linyaps.Repo.Remote.Newest.{IsOrderedReference, candidates, IsChosen, clear_remote-IsChosen}
use linyaps.Repo.Resolve.{find_layer, clear_in, get_remote_reference_by_priority}
use linyaps.Repo.Resolve.Latest.{is_usable, IsLatest, find_layer-IsLatest}
use linyaps.Repo.Resolve.Priority.{
  IsOrderedAnswer, IsNewestAnswer, get_remote_reference_by_priority-IsNewestAnswer,
}
use linyaps.Repo.Store.{
  OstreeRepo, ostree_ref_spec_from_layer_item, item_query, get_layer_item, mark_deleted, remove,
}
use linyaps.Repo.Store.Lookup.{fits, IsFound, get_layer_item-IsFound}
use linyaps.Repo.Store.Mark.{IsMarkedOf, mark_deleted-IsMarked}
use linyaps.Repo.Store.Remove.{IsTogether, IsRemovedOf, remove-IsRemovedOf}
use linyaps.Repo.Modules.{get_remote_module_list, includes}
use linyaps.Repo.Modules.Listed.{IsAscending, is_offered, get_remote_module_list-IsAscending}
use linyaps.Repo.Merge.{MergedDirs, MergeSystem, made, merge_modules}
use linyaps.Samples.QtTexts.{sample_qt}
use linyaps.Samples.Precedence.{sample_semver, sample_precedence}
use linyaps.Samples.Versions.{four}
use linyaps.Samples.Repos.{stable, config, layer, cached, repo_cache, layers-IsVersioned}

abbrev fuzzy : FuzzyReference
fuzzy = record {
  channel = none;
  id = codes "org.a";
  version = some (codes "1.2.3.4");
  arch = some x86_64;
}

abbrev any_version : FuzzyReference
any_version = record { channel = none; id = codes "org.a"; version = none; arch = none }

abbrev first_info : PackageInfoV2
first_info = (layer (codes "1.2.3.4")).info

abbrev second_info : PackageInfoV2
second_info = (layer (codes "1.2.3.5")).info

abbrev pub answer : FuzzyReference → Repo → Result (List PackageInfoV2)
answer asked repo = ok (first_info ∷ second_info ∷ [])

abbrev pub reference : Reference
reference = record {
  channel = codes "main";
  id = codes "org.a";
  version = version_v1 (four 4);
  arch = x86_64;
}

abbrev pub store : OstreeRepo
store = record {
  cache = repo_cache;
  refs =
      ostree_ref_spec_from_layer_item (layer (codes "1.2.3.4"))
      ∷ ostree_ref_spec_from_layer_item (layer (codes "1.2.3.5"))
      ∷ [];
  layer_dirs = codes "c0" ∷ [];
}

abbrev pub system : MergeSystem
system = record {
  hash = λ commits. codes "h";
  making = λ dir commits. made;
  lists = true;
  removes = λ dir. true;
}

-- Two modules of a package, and what an earlier call merged.
abbrev develop : LayersItem
develop = record (layer (codes "1.2.3.4")) {
  commit = codes "c1";
  info = record (layer (codes "1.2.3.4")).info { module_name = codes "develop" };
}

abbrev old_item : MergedItem
old_item = record {
  binary_commit = some (codes "c9");
  commits = codes "c9" ∷ [];
  id = codes "old";
  modules = codes "binary" ∷ [];
  name = none;
}

abbrev merged_dirs : MergedDirs
merged_dirs = record {
  cache = record repo_cache {
    cache = record cached {
      layers = layer (codes "1.2.3.4") ∷ develop ∷ [];
      merged = some (old_item ∷ []);
    };
  };
  dirs = codes "old" ∷ [];
}

find_layer-IsLatest_example :
    IsLatest sample_qt sample_semver
      (is_usable sample_qt sample_semver (codes "org.a") (some (version_v1 (four 4))) false)
      (find_layer sample_qt sample_semver (ok x86_64) repo_cache fuzzy false)
      repo_cache.cache.layers
unfolding linyaps.Repo.Resolve.parse_wanted linyaps.Repo.Resolve.check_arch
    linyaps.Package.Architecture.arch_eq linyaps.Package.Version.parse
    linyaps.Package.VersionV2.parse linyaps.Samples.Precedence.parse
    linyaps.Package.Pattern.match_v1 linyaps.Samples.QtTexts.to_long_long text_eq
find_layer-IsLatest_example =
    find_layer-IsLatest sample_qt sample_semver sample_precedence (ok x86_64) repo_cache fuzzy false
      (some (version_v1 (four 4))) refl refl layers-IsVersioned

candidates-ordered : All IsOrderedReference (
    candidates sample_qt sample_semver any_version (codes "binary") (first_info ∷ second_info ∷ []))
unfolding candidates linyaps.Repo.Remote.match_reference linyaps.Repo.Remote.fits_module
    linyaps.Package.Reference.create linyaps.Package.Architecture.parse
    linyaps.Package.Version.parse linyaps.Package.VersionV2.parse linyaps.Samples.Precedence.parse
    linyaps.Package.Pattern.match_v1 linyaps.Samples.QtTexts.to_long_long text_eq
candidates-ordered = (refl, (refl, tt))

clear_remote-IsChosen_example :
    IsChosen sample_qt sample_semver none true
      (clear_remote sample_qt sample_semver answer config any_version true (codes "binary") none)
      (candidates sample_qt sample_semver any_version
        (codes "binary")
        (first_info ∷ second_info ∷ []))
unfolding linyaps.Repo.Config.get_default_repo linyaps.Repo.Config.find_repo
    linyaps.Repo.Remote.filter_list text_eq
clear_remote-IsChosen_example =
    clear_remote-IsChosen sample_qt sample_semver sample_precedence answer config any_version true
      (codes "binary") none stable stable (first_info ∷ second_info ∷ [])
      (first_info ∷ second_info ∷ []) none refl refl refl refl candidates-ordered

answers-ordered :
    All
      (λ repo. IsOrderedAnswer sample_qt sample_semver (
        clear_in sample_qt sample_semver answer
          (ok x86_64)
          repo_cache
          config
          any_version
          false
          (codes "binary")
          repo))
      (get_highest_priority_repos config)
unfolding clear_in linyaps.Repo.Resolve.clear_reference clear_remote linyaps.Repo.Remote.choose
    linyaps.Repo.Remote.filter_list linyaps.Repo.Remote.match_reference
    linyaps.Repo.Remote.fits_module linyaps.Repo.Remote.later get_highest_priority_repos
    linyaps.Repo.Config.get_ordered_config linyaps.Repo.Config.sort_repos
    linyaps.Repo.Config.get_default_repo linyaps.Repo.Config.find_repo
    linyaps.Repo.Config.get_repo_by_alias linyaps.Repo.Config.copy_if_priority
    linyaps.Package.Version.gt linyaps.Package.Version.eq linyaps.Package.Version.lt
    linyaps.Package.VersionV1.eq linyaps.Package.VersionV1.lt linyaps.Prelude.Lex.lex_lt
    linyaps.Package.Reference.create linyaps.Package.Architecture.parse
    linyaps.Package.Version.parse linyaps.Package.VersionV2.parse linyaps.Samples.Precedence.parse
    linyaps.Package.Pattern.match_v1 linyaps.Samples.QtTexts.to_long_long text_eq
answers-ordered = (refl, tt)

get_remote_reference_by_priority-IsNewestAnswer_example :
    IsNewestAnswer sample_qt sample_semver
      (clear_in sample_qt sample_semver answer
        (ok x86_64)
        repo_cache
        config
        any_version
        false
        (codes "binary"))
      (get_highest_priority_repos config)
      (get_remote_reference_by_priority sample_qt sample_semver answer
        (ok x86_64)
        repo_cache
        config
        any_version
        false
        false
        (codes "binary"))
get_remote_reference_by_priority-IsNewestAnswer_example =
    get_remote_reference_by_priority-IsNewestAnswer sample_qt sample_semver sample_precedence answer
      (ok x86_64) repo_cache config any_version false (codes "binary") answers-ordered

get_layer_item-IsFound_example :
    IsFound
      (selects (
        item_query sample_qt sample_semver reference (some (codes "stable")) (codes "binary") none))
      (fits sample_qt sample_semver reference (codes "binary") none)
      repo_cache.cache.layers
      (get_layer_item sample_qt sample_semver repo_cache config reference (codes "binary") none)
unfolding linyaps.Repo.Config.get_default_repo linyaps.Repo.Config.find_repo text_eq
get_layer_item-IsFound_example =
    get_layer_item-IsFound sample_qt sample_semver repo_cache config stable reference
      (codes "binary") none refl

mark_deleted-IsMarked_example :
    IsMarkedOf all_written repo_cache
      (get_layer_item sample_qt sample_semver repo_cache config reference (codes "binary") none)
      true
      (mark_deleted sample_qt sample_semver
        (codes "1.9")
        all_written
        config
        reference
        true
        (codes "binary")
        none
        repo_cache)
mark_deleted-IsMarked_example =
    mark_deleted-IsMarked sample_qt sample_semver (codes "1.9") all_written config reference true
      (codes "binary") none repo_cache

store-IsTogether : IsTogether store
unfolding linyaps.Repo.Store.ostree_ref_spec_from_layer_item
    linyaps.Repo.Store.ostree_ref_from_layer_item text_eq
store-IsTogether = (((refl, tt), (tt, tt)), (refl, (refl, tt)))

remove-IsRemovedOf_example :
    IsRemovedOf true store
      (get_layer_item sample_qt sample_semver repo_cache config reference (codes "binary") none)
      (remove sample_qt sample_semver
        (codes "1.9")
        all_written
        true
        true
        true
        config
        reference
        (codes "binary")
        none
        store)
remove-IsRemovedOf_example =
    remove-IsRemovedOf sample_qt sample_semver (codes "1.9") all_written true true true config
      reference (codes "binary") none store store-IsTogether

abbrev exact : FuzzyReference
exact = record {
  channel = some (codes "main");
  id = codes "org.a";
  version = some (codes "1.2.3.4");
  arch = some x86_64;
}

get_remote_module_list-IsAscending_example :
    (modules : List Text) × (get_remote_module_list sample_qt sample_semver answer reference
        (some (codes "binary" ∷ []))
        stable
      ≡ ok modules)
    × IsAscending modules
    × ((name : Text)
        → includes modules name
          ≡ is_offered (codes "binary" ∷ []) (first_info ∷ second_info ∷ []) name)
unfolding linyaps.Package.FuzzyReference.create linyaps.Package.Version.to_string
    linyaps.Package.VersionV1.to_string linyaps.Samples.QtTexts.number
get_remote_module_list-IsAscending_example =
    get_remote_module_list-IsAscending sample_qt sample_semver answer reference
      (codes "binary" ∷ []) stable exact first_info (second_info ∷ []) refl refl

-- The two modules get a directory, and the old one is removed.
merged-run : (merge_modules (codes "1.9") all_written system merged_dirs).1.dirs ≡ codes "h" ∷ []
unfolding merge_modules linyaps.Repo.Cache.query_existing_layer_item text_eq linyaps.Prelude.lex_lt
merged-run = refl
