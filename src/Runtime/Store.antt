-- ===== src/Runtime/Store.antt =====
-- runtime/run_context.cpp on repo/ostree_repo.cpp: what a `RunContext` asks of an `OSTreeRepo`.
pub mod Latest
use linyaps.Prelude.{Bool, true, false, not, none, some, List, Text, codes}
use linyaps.Error.{Result, ok, err}
use linyaps.Qt.{Qt}
use linyaps.Semver.{Semver}
use linyaps.Package.Architecture.{Architecture}
use linyaps.Package.Info.{PackageInfoV2}
use linyaps.Package.Reference
use linyaps.Package.FuzzyReference.{FuzzyReference}
use linyaps.Repo.Config.{Repo, RepoConfigV2}
use linyaps.Repo.Resolve.{ClearReferenceOption, clear_reference}
use linyaps.Repo.Store.{OstreeRepo, get_layer_item, get_layer_dir}
use linyaps.Repo.Modules.{LayerDir, merged, layer, get_merged_dir_of}
use linyaps.Repo.Merge.{MergeSystem, get_merged_of_modules}
use linyaps.Runtime.Layer.{LayerRepo}

-- The options of each call of `clearReference`.
abbrev pub installed_only : ClearReferenceOption
installed_only = record {
  force_remote = false;
  fallback_to_remote = false;
  semantic_matching = true;
}

abbrev as_merged : Result Text → Result LayerDir
as_merged (ok dir) = ok (merged dir)
as_merged (err e) = err e

abbrev as_layer : Result Text → Result LayerDir
as_layer (ok dir) = ok (layer dir)
as_layer (err e) = err e

-- `dirs` is what is below `merged`, `list` is `listRemote`.
unfoldable pub store_repo :
    Qt
    → Semver
    → (FuzzyReference → Repo → Result (List PackageInfoV2))
    → Result Architecture
    → RepoConfigV2
    → MergeSystem
    → List Text
    → OstreeRepo
    → LayerRepo
unfolding clear_reference get_layer_item get_layer_dir get_merged_dir_of get_merged_of_modules
    Reference.ne
store_repo qt sv list host cfg system dirs s = record {
  clear = λ fuzzy.
      clear_reference qt sv list host s.cache cfg fuzzy installed_only (codes "binary") none;
  item = λ reference. get_layer_item qt sv s.cache cfg reference (codes "binary") none;
  merged_dir = λ reference. get_merged_dir_of qt sv dirs s cfg reference true;
  merged_of =
      λ reference names. as_merged (get_merged_of_modules qt sv system s.cache reference names);
  layer_dir = λ reference name sub_ref. as_layer (get_layer_dir qt sv s cfg reference name sub_ref);
  differs = Reference.ne qt sv;
}
