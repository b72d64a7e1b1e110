-- ===== src/Runtime/Layers.antt =====
-- runtime/run_context.h and run_context.cpp: `RunContext`, and `RunContext::resolveLayer`, which finds
-- the directories of its layers.
use linyaps.Prelude.{Bool, Option, none, some, List, [], ◌∷◌, Text, codes, if◌then◌else◌}
use linyaps.Error.{Result, ok, err, ◌>>=◌}
use linyaps.Package.Info.{ExtensionDefine, ExtensionImpl}
use linyaps.Repo.Cache.{LayersItem}
use linyaps.Runtime.Environment.{add_envs, add_impl}
use linyaps.Runtime.Layer.{LayerRepo, RuntimeLayer, resolve_layer_dir, get_cached_item, cached}

pub record RunContext : Type 0 where
  pub base_layer : Option RuntimeLayer
  pub runtime_layer : Option RuntimeLayer
  pub app_layer : Option RuntimeLayer
  pub extension_layers : List RuntimeLayer
  pub target_id : Text
  pub app_output : Option Text
  pub runtime_output : Option Text
  pub extension_output : Option Text
  pub container_id : Text
  pub environment : List (Text × Text)

module _ (repo : LayerRepo) where
  abbrev pub cached_if : Option RuntimeLayer → Option RuntimeLayer
  cached_if none = none
  cached_if (some layer) = some (cached repo layer)

  abbrev uuid_of : Result LayersItem → Option Text
  uuid_of (err e) = none
  uuid_of (ok item) = item.info.uuid

  abbrev sub_ref_of : Option RuntimeLayer → Option Text
  sub_ref_of none = none
  sub_ref_of (some layer) = uuid_of (get_cached_item repo layer)

  unfoldable pub resolve_if :
      List Text → Option Text → Option RuntimeLayer → Result (Option RuntimeLayer)
  unfolding resolve_layer_dir
  resolve_if modules sub_ref none = ok none
  resolve_if modules sub_ref (some layer) = do
    resolved ← resolve_layer_dir repo modules sub_ref layer
    ok (some resolved)

  -- The item is looked up where variables are allowed.
  abbrev cached_ext : RuntimeLayer → Option (List (Text × Text)) → RuntimeLayer
  cached_ext layer none = layer
  cached_ext layer (some allow_env) = cached repo layer

  abbrev cached_for : RuntimeLayer → Option ExtensionDefine → RuntimeLayer
  cached_for layer none = layer
  cached_for layer (some extension) = cached_ext layer extension.allow_env

  -- An extension's layer after the loop; one whose directory is not found stays as it is.
  abbrev ext_resolved : RuntimeLayer → Result RuntimeLayer → RuntimeLayer
  ext_resolved layer (ok resolved) = cached_for resolved resolved.extension_of
  ext_resolved layer (err e) = layer

  abbrev impl_of : Result LayersItem → Option ExtensionImpl
  impl_of (err e) = none
  impl_of (ok item) = item.info.ext_impl

  abbrev env_of_item :
      RuntimeLayer → Option (List (Text × Text)) → List (Text × Text) → List (Text × Text)
  env_of_item layer none environment = environment
  env_of_item layer (some allow_env) environment =
      add_impl layer.reference.id allow_env (impl_of (get_cached_item repo layer)) environment

  abbrev env_of_ext :
      RuntimeLayer → Option ExtensionDefine → List (Text × Text) → List (Text × Text)
  env_of_ext layer none environment = environment
  env_of_ext layer (some extension) environment = env_of_item layer extension.allow_env environment

  abbrev ext_env : Result RuntimeLayer → List (Text × Text) → List (Text × Text)
  ext_env (err e) environment = environment
  ext_env (ok layer) environment = env_of_ext layer layer.extension_of environment

  unfoldable pub resolve_exts : List RuntimeLayer → List RuntimeLayer
  unfolding resolve_layer_dir get_cached_item
  resolve_exts [] = []
  resolve_exts (ext ∷ exts) =
      ext_resolved ext (resolve_layer_dir repo [] none ext) ∷ resolve_exts exts

  unfoldable pub exts_env : List RuntimeLayer → List (Text × Text) → List (Text × Text)
  unfolding resolve_layer_dir get_cached_item add_envs
  exts_env [] environment = environment
  exts_env (ext ∷ exts) environment =
      exts_env exts (ext_env (resolve_layer_dir repo [] none ext) environment)

  abbrev deps_modules : Bool → List Text
  deps_modules binary_only = if binary_only then codes "binary" ∷ [] else []

  -- `RunContext::resolveLayer`. Without a base layer the code reads an empty optional; `resolve`
  -- calls it with one.
  unfoldable pub resolve_layers : Bool → List Text → RunContext → Result RunContext
  unfolding resolve_if get_cached_item resolve_exts exts_env
  resolve_layers binary_only app_modules c =
      let sub_ref = sub_ref_of c.app_layer in
      let deps = deps_modules binary_only in
      resolve_if deps sub_ref c.base_layer >>= λ base.
      resolve_if app_modules none (cached_if c.app_layer) >>= λ app.
      resolve_if deps sub_ref c.runtime_layer >>= λ runtime. ok (record c {
        base_layer = base;
        app_layer = app;
        runtime_layer = runtime;
        extension_layers = resolve_exts c.extension_layers;
        environment = exts_env c.extension_layers c.environment;
      })
