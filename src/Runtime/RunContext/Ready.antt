-- ===== src/Runtime/RunContext/Ready.antt =====
-- runtime/run_context.cpp: what `RunContext::resolve` has found when it succeeds.
use linyaps.Prelude.{
  ◌≡◌, refl, sym, ap, ◌∙◌, Bool, true, false, Option, none, some, List, Text, codes, text_eq,
  is_some, if◌then◌else◌, [], subst,
}
use linyaps.Error.{Result, ok, err, >>=-eq-ok, ok-injective, not_runnable}
use linyaps.Package.Info.{PackageInfoV2}
use linyaps.Package.Reference.{Reference}
use linyaps.Repo.Cache.{LayersItem}
use linyaps.Runtime.Environment.{value_or}
use linyaps.Runtime.Layer.{
  LayerRepo, RuntimeLayer, new_layer, layer_dir_of, resolve_layer_dir, cached, keep_item,
  get_cached_item, clear_text, resolve_extension,
}
use linyaps.Runtime.Layers.{RunContext, cached_if, resolve_if, resolve_layers}
use linyaps.Runtime.RunContext.{
  ResolveOptions, modules_or, with_base, runtime_of, resolve_only, resolve_app, resolve_base,
  resolve_kind, resolve,
}

-- A layer that is there has its directory.
abbrev pub HasDir : Option RuntimeLayer → Type 0
HasDir none = Unit
HasDir (some layer) = is_some layer.layer_dir ≡ true

abbrev SameReference : Option RuntimeLayer → Option RuntimeLayer → Type 0
SameReference none none = Unit
SameReference none (some b) = ⊥
SameReference (some a) none = ⊥
SameReference (some a) (some b) = a.reference ≡ b.reference

-- The layer is there, and is that of the reference.
abbrev pub IsLayerOf : Reference → Option RuntimeLayer → Type 0
IsLayerOf reference none = ⊥
IsLayerOf reference (some layer) = layer.reference ≡ reference

keep_item-reference :
    (layer : RuntimeLayer) (found : Result LayersItem)
    → (keep_item layer found).reference ≡ layer.reference
keep_item-reference layer (ok item) = refl
keep_item-reference layer (err e) = refl

keep_item-dir :
    (layer : RuntimeLayer) (found : Result LayersItem)
    → (keep_item layer found).layer_dir ≡ layer.layer_dir
keep_item-dir layer (ok item) = refl
keep_item-dir layer (err e) = refl

IsLayerOf-same :
    (reference : Reference) (before : RuntimeLayer) (after : Option RuntimeLayer)
    → before.reference ≡ reference
    → SameReference (some before) after
    → IsLayerOf reference after
IsLayerOf-same reference before none h k = k
IsLayerOf-same reference before (some after) h k = sym k ∙ h

module _ (repo : LayerRepo) (enables : Text → Option Text) where
  resolve_layer_dir-HasDir :
      (modules : List Text) (sub_ref : Option Text) (before after : RuntimeLayer)
      → resolve_layer_dir repo modules sub_ref before ≡ ok after
      → (is_some after.layer_dir ≡ true) × (before.reference ≡ after.reference)
  unfolding resolve_layer_dir
  resolve_layer_dir-HasDir modules sub_ref before after h =
      let (dir, e, k) = >>=-eq-ok (layer_dir_of repo before.reference modules sub_ref) _ h in
      (
        sym (ap (λ (l : RuntimeLayer). is_some l.layer_dir) (ok-injective k)),
        ap (λ (l : RuntimeLayer). l.reference) (ok-injective k),
      )

  resolve_if-HasDir :
      (modules : List Text) (sub_ref : Option Text) (before after : Option RuntimeLayer)
      → resolve_if repo modules sub_ref before ≡ ok after
      → HasDir after × SameReference before after
  unfolding resolve_if
  resolve_if-HasDir modules sub_ref none after h =
      subst (λ o. HasDir o × SameReference none o) (ok-injective h) (tt, tt)
  resolve_if-HasDir modules sub_ref (some layer) after h =
      let (resolved, e, k) = >>=-eq-ok (resolve_layer_dir repo modules sub_ref layer) _ h in
      subst (λ o. HasDir o × SameReference (some layer) o) (ok-injective k)
        (resolve_layer_dir-HasDir modules sub_ref layer resolved e)

  -- The layers of a context have their directories.
  abbrev pub IsReady : RunContext → Type 0
  IsReady c = HasDir c.base_layer × (HasDir c.app_layer × HasDir c.runtime_layer)

  resolve_layers-IsReady :
      (binary_only : Bool) (app_modules : List Text) (c after : RunContext)
      → resolve_layers repo binary_only app_modules c ≡ ok after
      → IsReady after × SameReference c.base_layer after.base_layer
  unfolding resolve_layers
  resolve_layers-IsReady binary_only app_modules c after h =
      let (base, e, h1) = >>=-eq-ok (resolve_if repo _ _ c.base_layer) _ h in
      let (app, f, h2) = >>=-eq-ok (resolve_if repo _ _ (cached_if repo c.app_layer)) _ h1 in
      let (runtime, g, h3) = >>=-eq-ok (resolve_if repo _ _ c.runtime_layer) _ h2 in
      let (has_base, same) = resolve_if-HasDir _ _ c.base_layer base e in
      let (has_app, same_app) = resolve_if-HasDir _ _ (cached_if repo c.app_layer) app f in
      let (has_runtime, same_runtime) = resolve_if-HasDir _ _ c.runtime_layer runtime g in
      subst (λ k. IsReady k × SameReference c.base_layer k.base_layer) (ok-injective h3)
        ((has_base, (has_app, has_runtime)), same)

  resolve_base-IsReady :
      (options : ResolveOptions) (info : PackageInfoV2) (c after : RunContext)
      → resolve_base repo enables options info c ≡ ok after
      → (base : Reference) × (clear_text repo (value_or options.base_ref info.base) ≡ ok base)
        × IsReady after
        × IsLayerOf base after.base_layer
  unfolding resolve_base with_base
  resolve_base-IsReady options info c after h =
      let (base, e, k) = >>=-eq-ok (clear_text repo (value_or options.base_ref info.base)) _ h in
      let (ready, same) =
        resolve_layers-IsReady options.deps_binary_only (modules_or options.app_modules)
          (with_base repo enables base c) after k in
      (
        base,
        e,
        ready,
        IsLayerOf-same base (cached repo (new_layer base)) after.base_layer
            (keep_item-reference (new_layer base) (get_cached_item repo (new_layer base))) same,
      )

  abbrev is_base : PackageInfoV2 → Bool
  is_base info = text_eq info.kind (codes "base")

  abbrev IsBased : ResolveOptions → PackageInfoV2 → RunContext → Type 0
  IsBased options info after =
      (base : Reference) × (clear_text repo (value_or options.base_ref info.base) ≡ ok base)
      × IsReady after
      × IsLayerOf base after.base_layer

  abbrev IsOnly : Reference → RunContext → Type 0
  IsOnly runnable after =
      (layer : RuntimeLayer) × (after.base_layer ≡ some layer)
      × (layer.reference ≡ runnable)
      × (layer.layer_dir ≡ none)

  abbrev pub IsResolved : Reference → ResolveOptions → PackageInfoV2 → RunContext → Bool → Type 0
  IsResolved runnable options info after true = IsOnly runnable after
  IsResolved runnable options info after false = IsBased options info after

  resolve_only-IsOnly :
      (runnable : Reference) (c after : RunContext)
      → resolve_only repo enables runnable c ≡ ok after
      → IsOnly runnable after
  unfolding resolve_only
  resolve_only-IsOnly runnable c after h =
      let (layers, e, k) =
        >>=-eq-ok (resolve_extension repo enables (new_layer runnable) c.extension_layers) _ h in
      let found = get_cached_item repo (new_layer runnable) in
      (
        cached repo (new_layer runnable),
        sym (ap (λ (a : RunContext). a.base_layer) (ok-injective k)),
        keep_item-reference (new_layer runnable) found,
        keep_item-dir (new_layer runnable) found,
      )

  resolve_app-IsBased :
      (runnable : Reference) (options : ResolveOptions) (info : PackageInfoV2)
      (c after : RunContext)
      → resolve_app repo enables runnable options info c ≡ ok after
      → IsBased options info after
  unfolding resolve_app
  resolve_app-IsBased runnable options info c after h =
      let (runtime, e, k) =
        >>=-eq-ok
          (runtime_of repo enables (value_or options.runtime_ref (value_or info.runtime []))) _ h in
      resolve_base-IsReady options info
        (record c { app_layer = some (new_layer runnable); runtime_layer = runtime }) after k

  -- By the tests of the kind.
  kinds-IsResolved :
      (runnable : Reference) (options : ResolveOptions) (info : PackageInfoV2)
      (c after : RunContext) (is_base is_app is_runtime : Bool)
      → (if is_base
          then resolve_only repo enables runnable c
          else if is_app
          then resolve_app repo enables runnable options info c
          else if is_runtime
          then resolve_base repo enables options info
              (record c { runtime_layer = some (new_layer runnable) })
          else err not_runnable)
        ≡ ok after
      → IsResolved runnable options info after is_base
  kinds-IsResolved runnable options info c after true is_app is_runtime h =
      resolve_only-IsOnly runnable c after h
  kinds-IsResolved runnable options info c after false true is_runtime h =
      resolve_app-IsBased runnable options info c after h
  kinds-IsResolved runnable options info c after false false true h =
      resolve_base-IsReady options info (record c { runtime_layer = some (new_layer runnable) })
        after h
  kinds-IsResolved runnable options info c after false false false h = cc

  -- Where `resolve` of a reference succeeds, `getLayerItem` has found its layer, and: for any kind
  -- but `base`, the base layer is there and is of the reference found for the base that the options
  -- or the package name, and the base layer, the app's and the runtime's, where there are such, have
  -- their directories; for a `base`, the base layer is that of the reference itself, and has no
  -- directory.
  pub resolve-IsResolved :
      (container_id : Text) (runnable : Reference) (options : ResolveOptions) (c after : RunContext)
      → resolve repo enables container_id runnable options c ≡ ok after
      → (item : LayersItem) × (repo.item runnable ≡ ok item)
        × IsResolved runnable options item.info after (text_eq item.info.kind (codes "base"))
  unfolding resolve resolve_kind
  resolve-IsResolved container_id runnable options c after h =
      let (item, e, k) = >>=-eq-ok (repo.item runnable) _ h in
      (
        item,
        e,
        kinds-IsResolved runnable options item.info (record c { container_id = container_id }) after
            (text_eq item.info.kind (codes "base")) (text_eq item.info.kind (codes "app"))
            (text_eq item.info.kind (codes "runtime")) k,
      )
