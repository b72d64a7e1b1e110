-- ===== src/Samples/Runs.antt =====
-- The theorems on runs at concrete inputs.
use linyaps.Prelude.{◌≡◌, refl, Bool, true, false, Option, none, some, [], Text, codes, text_eq}
use linyaps.Error.{Result, ok, err}
use linyaps.Package.Architecture.{x86_64}
use linyaps.Package.FuzzyReference
use linyaps.Package.FuzzyReference.{FuzzyReference}
use linyaps.Package.Reference.{Reference}
use linyaps.Repo.Cache.{LayersItem}
use linyaps.Repo.Modules
use linyaps.Repo.Modules.{LayerDir, merged}
use linyaps.Runtime.Extension.{should_enable}
use linyaps.Runtime.Layer.{LayerRepo}
use linyaps.Runtime.Layers.{RunContext}
use linyaps.Runtime.RunContext.{ResolveOptions, resolve}
use linyaps.Runtime.RunContext.Ready.{IsResolved, IsLayerOf, resolve-IsResolved}
use linyaps.Runtime.Mounts.{ContainerCfgBuilder, fill_context_cfg}
use linyaps.Runtime.Mounts.Filled.{reads_unset, fill_context_cfg-resolve}
use linyaps.Runtime.Store.{store_repo}
use linyaps.Runtime.Store.Latest.{IsNewestOf, resolve-IsNewestOf}
use linyaps.Package.Version.{version_v1}
use linyaps.Samples.QtTexts.{sample_qt}
use linyaps.Samples.Precedence.{sample_semver, sample_precedence}
use linyaps.Samples.Repos.{config, layer, repo_cache, layers-IsVersioned}
use linyaps.Samples.Stores.{reference, store, system, answer}

abbrev options : ResolveOptions
options = record {
  deps_binary_only = true;
  app_modules = none;
  base_ref = some (codes "a");
  runtime_ref = none;
}

abbrev context : RunContext
context = record {
  base_layer = none;
  runtime_layer = none;
  app_layer = none;
  extension_layers = [];
  target_id = [];
  app_output = none;
  runtime_output = none;
  extension_output = none;
  container_id = [];
  environment = [];
}

abbrev enables : Text → Option Text
enables = should_enable none

-- A repository that has one layer.
abbrev repo : LayerRepo
repo = record {
  clear = λ fuzzy. ok reference;
  item = λ asked. ok (layer (codes "1.2.3.4"));
  merged_dir = λ asked. ok (merged (codes "m"));
  merged_of = λ asked names. ok (merged (codes "n"));
  layer_dir = λ asked name sub_ref. ok (Modules.layer (codes "c0"));
  differs = λ a b. false;
}

abbrev value : Result RunContext → RunContext
value (ok c) = c
value (err e) = context

abbrev after : RunContext
after = value (resolve repo enables (codes "id") reference options context)

run-ok : resolve repo enables (codes "id") reference options context ≡ ok after
unfolding resolve text_eq FuzzyReference.parse linyaps.Package.FuzzyReference.Match.match_whole
    linyaps.Package.Fields.separator linyaps.Package.Fields.run
run-ok = refl

resolve-IsResolved_example :
    (item : LayersItem) × (repo.item reference ≡ ok item)
    × IsResolved repo enables reference options item.info after
        (text_eq item.info.kind (codes "base"))
resolve-IsResolved_example =
    resolve-IsResolved repo enables (codes "id") reference options context after run-ok

abbrev of_name : ResolveOptions
of_name = record options { base_ref = some (codes "org.a") }

abbrev installed : LayerRepo
installed = store_repo sample_qt sample_semver answer (ok x86_64) config system [] store

item-found : installed.item reference ≡ ok (layer (codes "1.2.3.4"))
unfolding store_repo linyaps.Repo.Config.get_default_repo text_eq
    linyaps.Repo.Cache.Query.query_layer_item linyaps.Package.Version.to_string
    linyaps.Package.VersionV1.to_string linyaps.Samples.QtTexts.number
item-found = refl

abbrev on_store : RunContext
on_store = value (resolve installed enables (codes "id") reference of_name context)

on_store-ok : resolve installed enables (codes "id") reference of_name context ≡ ok on_store
unfolding resolve store_repo linyaps.Repo.Cache.Query.query_layer_item text_eq
    linyaps.Package.Version.parse linyaps.Package.VersionV2.parse linyaps.Samples.Precedence.parse
    linyaps.Package.Pattern.match_v1 linyaps.Samples.QtTexts.to_long_long linyaps.Package.Version.gt
    linyaps.Package.VersionV1.eq linyaps.Package.VersionV1.lt linyaps.Prelude.lex_lt
    linyaps.Package.Reference.from_package_info linyaps.Package.Version.is_version_v1
    linyaps.Package.Version.has_tweak linyaps.Package.Architecture.parse
    linyaps.Package.Version.to_string linyaps.Package.VersionV1.to_string
    linyaps.Samples.QtTexts.number linyaps.Repo.Config.get_default_repo FuzzyReference.parse
    linyaps.Package.FuzzyReference.Match.match_whole linyaps.Package.Fields.separator
    linyaps.Package.Fields.run
on_store-ok = refl

resolve-IsNewestOf_example :
    (fuzzy : FuzzyReference) × (base : Reference) × (FuzzyReference.parse (codes "org.a")
      ≡ ok fuzzy)
    × IsNewestOf sample_qt sample_semver sample_precedence repo_cache fuzzy base
    × IsLayerOf base on_store.base_layer
unfolding text_eq
resolve-IsNewestOf_example =
    resolve-IsNewestOf sample_qt sample_semver sample_precedence answer (ok x86_64) config system []
      store enables (codes "id") reference of_name context on_store (layer (codes "1.2.3.4"))
      layers-IsVersioned on_store-ok item-found refl

abbrev builder : ContainerCfgBuilder
builder = record {
  base_path = none;
  app_path = none;
  runtime_path = none;
  bundle_path = [];
  extension_mount = none;
  extra_mount = none;
  env_append = [];
}

abbrev files : LayerDir → Text
files (merged name) = name
files (Modules.layer name) = name

fill_context_cfg-resolve_example :
    reads_unset (fill_context_cfg repo files (ok (codes "b")) after builder) ≡ false
unfolding text_eq resolve FuzzyReference.parse linyaps.Package.FuzzyReference.Match.match_whole
    linyaps.Package.Fields.separator linyaps.Package.Fields.run
fill_context_cfg-resolve_example =
    fill_context_cfg-resolve repo files (codes "b") builder enables (codes "id") reference options
      context after (layer (codes "1.2.3.4")) run-ok refl tt
