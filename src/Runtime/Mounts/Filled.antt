-- ===== src/Runtime/Mounts/Filled.antt =====
-- runtime/run_context.cpp: when `fillContextCfg` reads the directory of a layer that has none.
use linyaps.Prelude.{
  ◌≡◌, refl, sym, ◌∙◌, subst, Bool, true, false, Option, none, some, is_some, List, [], ◌∷◌, Text,
  codes, text_eq, All, ◌&&◌, if◌then◌else◌,
}
use linyaps.Error.{Error, Result, ok, ok-injective, err, ◌>>=◌, layer_dir_unset}
use linyaps.Package.Reference.{Reference}
use linyaps.Repo.Cache.{LayersItem}
use linyaps.Repo.Modules.{LayerDir}
use linyaps.Runtime.Layer.{LayerRepo, RuntimeLayer, or_item, get_cached_item}
use linyaps.Runtime.Layers.{RunContext}
use linyaps.Runtime.RunContext.{ResolveOptions, resolve}
use linyaps.Runtime.RunContext.Ready.{HasDir, IsResolved, resolve-IsResolved}
use linyaps.Runtime.Mounts.{
  Mount, ContainerCfgBuilder, dir_files, set_app, set_runtime, ext_mounts, fill_permissions_binds,
  fill_app, fill_extra_app_mounts, fill_with, fill_on, fill_context_cfg,
}

abbrev pub is_unset : Error → Bool
is_unset layer_dir_unset = true
is_unset e = false

-- A run that reads the directory of a layer that has none.
abbrev pub reads_unset {ℓ} : {A : Type ℓ} → Result A → Bool
reads_unset (ok a) = false
reads_unset (err e) = is_unset e

abbrev pub ExtHasDir : RuntimeLayer → Type 0
ExtHasDir layer = is_some layer.layer_dir ≡ true

-- A run after one that reads no such directory.
reads_unset->>= {ℓ ℓ'} :
    {A : Type ℓ} {B : Type ℓ'} (r : Result A) (f : A → Result B)
    → reads_unset r ≡ false
    → ((a : A) → reads_unset (f a) ≡ false)
    → reads_unset (r >>= f) ≡ false
reads_unset->>= (ok a) f h k = k a
reads_unset->>= (err e) f h k = h

reads_unset-dir_files :
    (files : LayerDir → Text) (dir : Option LayerDir)
    → is_some dir ≡ true
    → reads_unset (dir_files files dir) ≡ false
reads_unset-dir_files files none h = sym h
reads_unset-dir_files files (some dir) h = refl

module _ (files : LayerDir → Text) where
  reads_unset-set_app :
      (output : Option Text) (layer : Option RuntimeLayer) (b : ContainerCfgBuilder)
      → HasDir layer
      → reads_unset (set_app files output layer b) ≡ false
  unfolding set_app
  reads_unset-set_app (some output) layer b h = refl
  reads_unset-set_app none none b h = refl
  reads_unset-set_app none (some layer) b h =
      reads_unset->>= (dir_files files layer.layer_dir) _
        (reads_unset-dir_files files layer.layer_dir h) (λ path. refl)

  reads_unset-set_runtime :
      (output : Option Text) (layer : Option RuntimeLayer) (b : ContainerCfgBuilder)
      → HasDir layer
      → reads_unset (set_runtime files output layer b) ≡ false
  unfolding set_runtime
  reads_unset-set_runtime (some output) layer b h = refl
  reads_unset-set_runtime none none b h = refl
  reads_unset-set_runtime none (some layer) b h =
      reads_unset->>= (dir_files files layer.layer_dir) _
        (reads_unset-dir_files files layer.layer_dir h) (λ path. refl)

  reads_unset-if :
      (skipped : Bool) (rest mounted : Result (List Mount))
      → reads_unset rest ≡ false
      → reads_unset mounted ≡ false
      → reads_unset (if skipped then rest else mounted) ≡ false
  reads_unset-if true rest mounted h k = h
  reads_unset-if false rest mounted h k = k

  reads_unset-ext_mounts :
      (target : Text) (output : Option Text) (exts : List RuntimeLayer)
      → All ExtHasDir exts
      → reads_unset (ext_mounts files target output exts) ≡ false
  unfolding ext_mounts
  reads_unset-ext_mounts target output [] h = refl
  reads_unset-ext_mounts target output (ext ∷ exts) (h, hs) =
      let rest = reads_unset-ext_mounts target output exts hs in
      reads_unset-if (is_some output && text_eq ext.reference.id target) _ _ rest (
        reads_unset->>= (dir_files files ext.layer_dir) _
          (reads_unset-dir_files files ext.layer_dir h)
          (λ path. reads_unset->>= (ext_mounts files target output exts) _ rest (λ mounts. refl)))

module _ (repo : LayerRepo) where
  reads_unset-or_item :
      (kept : Option LayersItem) (found : Result LayersItem)
      → reads_unset (or_item repo kept found) ≡ false
  reads_unset-or_item none (ok item) = refl
  reads_unset-or_item none (err e) = refl
  reads_unset-or_item (some item) found = refl

  reads_unset-fill_app :
      (bundle : Text) (layer : Option RuntimeLayer) (b : ContainerCfgBuilder)
      → reads_unset (fill_app repo bundle layer b) ≡ false
  unfolding fill_permissions_binds get_cached_item
  reads_unset-fill_app bundle none b = refl
  reads_unset-fill_app bundle (some layer) b =
      reads_unset->>= (get_cached_item repo layer) _
        (reads_unset-or_item layer.cached_item (repo.item layer.reference)) (λ item. refl)

  reads_unset-fill_with :
      (files : LayerDir → Text) (bundle : Text) (base : RuntimeLayer) (c : RunContext)
      (b : ContainerCfgBuilder)
      → ExtHasDir base
      → HasDir c.app_layer
      → HasDir c.runtime_layer
      → All ExtHasDir c.extension_layers
      → reads_unset (fill_with repo files bundle base c b) ≡ false
  unfolding fill_with fill_extra_app_mounts
  reads_unset-fill_with files bundle base c b of_base of_app of_runtime of_exts =
      reads_unset->>= (dir_files files base.layer_dir) _
        (reads_unset-dir_files files base.layer_dir of_base)
        (λ path.
          reads_unset->>= (set_app files c.app_output c.app_layer _) _
            (reads_unset-set_app files c.app_output c.app_layer _ of_app)
            (λ with_app.
              reads_unset->>= (set_runtime files c.runtime_output c.runtime_layer with_app) _
                (reads_unset-set_runtime files c.runtime_output c.runtime_layer with_app of_runtime)
                (λ with_runtime.
                  reads_unset->>=
                    (ext_mounts files c.target_id c.extension_output c.extension_layers) _
                    (reads_unset-ext_mounts files c.target_id c.extension_output c.extension_layers
                      of_exts)
                    (λ mounts.
                      reads_unset->>= (fill_extra_app_mounts repo bundle c _) _
                        (reads_unset->>= (fill_app repo bundle c.app_layer _) _
                          (reads_unset-fill_app bundle c.app_layer _) (λ filled. refl))
                        (λ filled. refl)))))

  module _ (files : LayerDir → Text) (bundle : Text) (b : ContainerCfgBuilder) where
    fill_on-ready :
        (base : Option RuntimeLayer) (c : RunContext)
        → HasDir base
        → HasDir c.app_layer
        → HasDir c.runtime_layer
        → All ExtHasDir c.extension_layers
        → reads_unset (fill_on repo files (ok bundle) base c b) ≡ false
    fill_on-ready none c of_base of_app of_runtime of_exts = refl
    fill_on-ready (some base) c of_base of_app of_runtime of_exts =
        reads_unset-fill_with files bundle base c b of_base of_app of_runtime of_exts

    fill_with-unset :
        (dir : Option LayerDir) (f : Text → Result ContainerCfgBuilder)
        → dir ≡ none
        → reads_unset (dir_files files dir >>= f) ≡ true
    fill_with-unset none f h = refl
    fill_with-unset (some dir) f h = cc

    fill_on-unset :
        (base : RuntimeLayer) (found : Option RuntimeLayer) (c : RunContext)
        → found ≡ some base
        → base.layer_dir ≡ none
        → reads_unset (fill_on repo files (ok bundle) found c b) ≡ true
    unfolding fill_with
    fill_on-unset base found c h k =
        subst (λ o. reads_unset (fill_on repo files (ok bundle) o c b) ≡ true) (sym h)
          (fill_with-unset base.layer_dir _ k)

    module _ (enables : Text → Option Text) where
      fill-kinds :
          (runnable : Reference) (options : ResolveOptions) (item : LayersItem) (c : RunContext)
          (is_base : Bool)
          → IsResolved repo enables runnable options item.info c is_base
          → All ExtHasDir c.extension_layers
          → reads_unset (fill_context_cfg repo files (ok bundle) c b) ≡ is_base
      unfolding fill_context_cfg
      fill-kinds runnable options item c true (layer, there, same, unset) hs =
          fill_on-unset layer c.base_layer c there unset
      fill-kinds runnable options item c false
            (base, cleared, (of_base, (of_app, of_runtime)), same) hs =
          fill_on-ready c.base_layer c of_base of_app of_runtime hs

      -- Where `resolve` of a reference succeeds, each extension layer that it leaves has its
      -- directory, and the bundle's directory is made: `fillContextCfg` reads the directory of a
      -- layer that has none if the package is a base, and only then.
      pub fill_context_cfg-resolve :
          (container_id : Text) (runnable : Reference) (options : ResolveOptions)
          (c after : RunContext) (item : LayersItem)
          → resolve repo enables container_id runnable options c ≡ ok after
          → repo.item runnable ≡ ok item
          → All ExtHasDir after.extension_layers
          → reads_unset (fill_context_cfg repo files (ok bundle) after b)
            ≡ text_eq item.info.kind (codes "base")
      fill_context_cfg-resolve container_id runnable options c after item h k hs =
          let (found, p, resolved) =
            resolve-IsResolved repo enables container_id runnable options c after h in
          let same = ok-injective (sym p ∙ k) in
          fill-kinds runnable options item after (text_eq item.info.kind (codes "base"))
            (subst
              (λ (i : LayersItem).
                IsResolved repo enables runnable options i.info after
                  (text_eq i.info.kind (codes "base")))
              same resolved)
            hs
