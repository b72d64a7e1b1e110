-- ===== src/Runtime/RunContext.antt =====
-- runtime/run_context.cpp: `RunContext::resolve`, which finds the layers that a run or a build needs.
-- A failing method leaves a context that its callers drop: only the context after a success is
-- modelled.
pub mod Ready
use linyaps.Prelude.{
  Bool, true, false, Option, none, some, List, [], Text, codes, text_eq, is_empty, if◌then◌else◌,
}
use linyaps.Error.{Error, Result, ok, err, ◌>>=◌, not_runnable, base_incompatible}
use linyaps.Package.Info.{PackageInfoV2}
use linyaps.Package.Reference.{Reference}
use linyaps.Package.FuzzyReference
use linyaps.Runtime.Environment.{value_or}
use linyaps.Runtime.Layer.{
  LayerRepo, RuntimeLayer, new_layer, get_cached_item, cached, clear_text, resolve_extension,
  add_of,
}
use linyaps.Runtime.Layers.{RunContext, cached_if, resolve_layers}

pub record ResolveOptions : Type 0 where
  pub deps_binary_only : Bool
  pub app_modules : Option (List Text)
  pub base_ref : Option Text
  pub runtime_ref : Option Text

-- The fields of `api::types::v1::BuilderProject` that are read here.
pub record BuilderTarget : Type 0 where
  pub id : Text
  pub kind : Text
  pub base : Text
  pub runtime : Option Text

abbrev pub modules_or : Option (List Text) → List Text
modules_or none = []
modules_or (some modules) = modules

module _ (repo : LayerRepo) (enables : Text → Option Text) where
  -- The runtime that an app asks for, if any.
  unfoldable pub runtime_of : Text → Result (Option RuntimeLayer)
  unfolding clear_text
  runtime_of text =
      if is_empty text
      then ok none
      else do reference ← clear_text repo text; ok (some (new_layer reference))

  -- The base, and the extensions of the runtime and of the base.
  unfoldable pub with_base : Reference → RunContext → RunContext
  unfolding resolve_extension
  with_base reference c =
      let of_runtime = add_of repo enables c.runtime_layer c.extension_layers in
      record c {
        runtime_layer = cached_if repo c.runtime_layer;
        base_layer = some (cached repo (new_layer reference));
        extension_layers = add_of repo enables (some (new_layer reference)) of_runtime;
      }

  -- From the choice of the base on.
  unfoldable pub resolve_base : ResolveOptions → PackageInfoV2 → RunContext → Result RunContext
  unfolding clear_text with_base resolve_layers
  resolve_base options info c = do
    reference ← clear_text repo (value_or options.base_ref info.base)
    resolve_layers repo options.deps_binary_only (modules_or options.app_modules)
        (with_base reference c)

  -- A base has no other layers.
  unfoldable pub resolve_only : Reference → RunContext → Result RunContext
  unfolding resolve_extension
  resolve_only runnable c = do
    layers ← resolve_extension repo enables (new_layer runnable) c.extension_layers
    ok (record c {
      base_layer = some (cached repo (new_layer runnable));
      extension_layers = layers;
    })

  unfoldable pub resolve_app :
      Reference → ResolveOptions → PackageInfoV2 → RunContext → Result RunContext
  unfolding resolve_base runtime_of
  resolve_app runnable options info c = do
    runtime ← runtime_of (value_or options.runtime_ref (value_or info.runtime []))
    resolve_base options info
        (record c { app_layer = some (new_layer runnable); runtime_layer = runtime })

  unfoldable pub resolve_kind :
      Reference → ResolveOptions → PackageInfoV2 → RunContext → Result RunContext
  unfolding resolve_only resolve_app resolve_base
  resolve_kind runnable options info c =
      if text_eq info.kind (codes "base")
      then resolve_only runnable c
      else if text_eq info.kind (codes "app")
      then resolve_app runnable options info c
      else if text_eq info.kind (codes "runtime")
      then resolve_base options info (record c { runtime_layer = some (new_layer runnable) })
      else err not_runnable

  -- `resolve` of a reference; `container_id` is what `genContainerID` gives. The layers that the
  -- code leaves as they are on a second call are not there on the first.
  unfoldable pub resolve : Text → Reference → ResolveOptions → RunContext → Result RunContext
  unfolding resolve_kind
  resolve container_id runnable options c = do
    item ← repo.item runnable
    resolve_kind runnable options item.info (record c { container_id = container_id })

  -- `resolve` of a project that is built: where its output goes.
  unfoldable pub with_output : BuilderTarget → Text → RunContext → Result RunContext
  with_output target output c =
      if text_eq target.kind (codes "extension")
      then ok (record c { extension_output = some output })
      else if text_eq target.kind (codes "app")
      then ok (record c { app_output = some output })
      else if text_eq target.kind (codes "runtime")
      then ok (record c { runtime_output = some output })
      else err not_runnable

  abbrev same_base : Reference → Result Reference → Result (Unit {0})
  same_base base (err e) = err base_incompatible
  same_base base (ok required) = if repo.differs required base then err base_incompatible else ok tt

  -- The runtime of a project: its own base has to be the project's.
  unfoldable pub runtime_on : Reference → Option Text → Result (Option RuntimeLayer)
  unfolding clear_text get_cached_item
  runtime_on base none = ok none
  runtime_on base (some text) = do
    reference ← clear_text repo text
    item ← get_cached_item repo (new_layer reference)
    fuzzy ← FuzzyReference.parse item.info.base
    checked ← same_base base (repo.clear fuzzy)
    ok (some (cached repo (new_layer reference)))

  -- `target_ref` is the result of `Reference::fromBuilderProject`.
  unfoldable pub resolve_target :
      Text → Result Reference → BuilderTarget → Text → RunContext → Result RunContext
  unfolding with_output clear_text runtime_on resolve_layers
  resolve_target container_id target_ref target output c = do
    reference ← target_ref
    placed ←
        with_output target output (record c { container_id = container_id; target_id = target.id })
    base ← clear_text repo target.base
    runtime ← runtime_on base target.runtime
    resolve_layers repo false []
        (record placed { base_layer = some (new_layer base); runtime_layer = runtime })
