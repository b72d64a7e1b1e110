-- ===== src/Runtime/Mounts.antt =====
-- runtime/run_context.cpp: what `RunContext` puts into the configuration of a container, by
-- `fillContextCfg` up to the display system and `fillExtraAppMounts`, and the fields of
-- `ContainerCfgBuilder` that it sets (libs/oci-cfg-generators). On failure the builder is discarded.
pub mod Filled
use linyaps.Prelude.{
  Bool, true, false, Option, none, some, is_some, ◌&&◌, List, [], ◌∷◌, ◌++◌, Text, codes, text_eq,
  map, if◌then◌else◌,
}
use linyaps.Error.{Result, ok, err, ◌>>=◌, not_resolved, bundle_failed, layer_dir_unset}
use linyaps.Package.Info.{Bind, Permissions}
use linyaps.Repo.Modules.{LayerDir}
use linyaps.Runtime.Environment.{find_value, set_value}
use linyaps.Runtime.Layer.{LayerRepo, RuntimeLayer, get_cached_item}
use linyaps.Runtime.Layers.{RunContext}

pub record Mount : Type 0 where
  pub destination : Text
  pub source : Text
  pub options : List Text

-- Of a path that is optional, the second part says whether it is read-only.
pub record ContainerCfgBuilder : Type 0 where
  pub base_path : Option (Text × Bool)
  pub app_path : Option (Text × Bool)
  pub runtime_path : Option (Text × Bool)
  pub bundle_path : Text
  pub extension_mount : Option (List Mount)
  pub extra_mount : Option (List Mount)
  pub env_append : List (Text × Text)

abbrev ext_path : Text → Text
ext_path name = codes "/opt/extensions/" ++ name

abbrev output_mount : Text → Option Text → List Mount
output_mount target none = []
output_mount target (some output) =
    record { destination = ext_path target; source = output; options = codes "rbind" ∷ [] } ∷ []

abbrev ext_mount : Text → Text → Mount
ext_mount name path = record {
  destination = ext_path name;
  source = path;
  options = codes "rbind" ∷ codes "ro" ∷ [];
}

abbrev set_extension_mounts : List Mount → ContainerCfgBuilder → ContainerCfgBuilder
set_extension_mounts [] b = b
set_extension_mounts (m ∷ ms) b = record b { extension_mount = some (m ∷ ms) }

abbrev mounts_or : Option (List Mount) → List Mount
mounts_or none = []
mounts_or (some ms) = ms

abbrev add_extra_mounts : List Mount → ContainerCfgBuilder → ContainerCfgBuilder
add_extra_mounts ms b = record b { extra_mount = some (mounts_or b.extra_mount ++ ms) }

abbrev bind_mount : Text → Bind → Mount
bind_mount root bind = record {
  destination = bind.destination;
  source = root ++ bind.source;
  options = codes "rbind" ∷ [];
}

abbrev binds_or : Option (List Bind) → List Bind
binds_or none = []
binds_or (some binds) = binds

abbrev add_permissions : Text → Option Permissions → ContainerCfgBuilder → ContainerCfgBuilder
add_permissions bundle none b = b
add_permissions bundle (some perm) b =
    add_extra_mounts
      (map (bind_mount []) (binds_or perm.binds)
        ++ map (bind_mount (bundle ++ codes "/rootfs")) (binds_or perm.inner_binds))
      b

-- `appendEnv` of a map: what is there stays.
abbrev add_missing : Text → Text → List (Text × Text) → Option Text → List (Text × Text)
add_missing key value env none = set_value key value env
add_missing key value env (some old) = env

unfoldable append_env : List (Text × Text) → List (Text × Text) → List (Text × Text)
unfolding find_value set_value
append_env [] env = env
append_env ((key, value) ∷ rest) env =
    append_env rest (add_missing key value env (find_value key env))

-- `files` is `absoluteFilePath("files")` of a layer's directory; reading one that is not there is
-- undefined.
abbrev pub dir_files : (LayerDir → Text) → Option LayerDir → Result Text
dir_files files none = err layer_dir_unset
dir_files files (some dir) = ok (files dir)

module _ (files : LayerDir → Text) where
  unfoldable pub set_app :
      Option Text → Option RuntimeLayer → ContainerCfgBuilder → Result ContainerCfgBuilder
  set_app (some output) layer b = ok (record b { app_path = some (output, false) })
  set_app none none b = ok b
  set_app none (some layer) b = do
    path ← dir_files files layer.layer_dir
    ok (record b { app_path = some (path, true) })

  unfoldable pub set_runtime :
      Option Text → Option RuntimeLayer → ContainerCfgBuilder → Result ContainerCfgBuilder
  set_runtime (some output) layer b = ok (record b { runtime_path = some (output, false) })
  set_runtime none none b = ok b
  set_runtime none (some layer) b = do
    path ← dir_files files layer.layer_dir
    ok (record b { runtime_path = some (path, true) })

  -- The loop over the extension layers, but for the one that is being built.
  unfoldable pub ext_mounts : Text → Option Text → List RuntimeLayer → Result (List Mount)
  ext_mounts target output [] = ok []
  ext_mounts target output (ext ∷ exts) =
      let rest = ext_mounts target output exts in
      if is_some output && text_eq ext.reference.id target
      then rest
      else dir_files files ext.layer_dir >>= λ path.
          rest >>= λ mounts. ok (ext_mount ext.reference.id path ∷ mounts)

module _ (repo : LayerRepo) where
  -- `fillPermissionsBinds`
  unfoldable pub fill_permissions_binds :
      Text → RuntimeLayer → ContainerCfgBuilder → Result ContainerCfgBuilder
  unfolding get_cached_item
  fill_permissions_binds bundle layer b = do
    item ← get_cached_item repo layer
    ok (add_permissions bundle item.info.permissions b)

  abbrev or_before : ContainerCfgBuilder → Result ContainerCfgBuilder → ContainerCfgBuilder
  or_before b (ok filled) = filled
  or_before b (err e) = b

  unfoldable fill_exts : Text → List RuntimeLayer → ContainerCfgBuilder → ContainerCfgBuilder
  unfolding fill_permissions_binds
  fill_exts bundle [] b = b
  fill_exts bundle (ext ∷ exts) b =
      fill_exts bundle exts (or_before b (fill_permissions_binds bundle ext b))

  abbrev pub fill_app :
      Text → Option RuntimeLayer → ContainerCfgBuilder → Result ContainerCfgBuilder
  fill_app bundle none b = ok b
  fill_app bundle (some layer) b = fill_permissions_binds bundle layer b

  unfoldable pub fill_extra_app_mounts :
      Text → RunContext → ContainerCfgBuilder → Result ContainerCfgBuilder
  unfolding fill_permissions_binds fill_exts
  fill_extra_app_mounts bundle c b = do
    filled ← fill_app bundle c.app_layer b
    ok (fill_exts bundle c.extension_layers filled)

  -- `fillContextCfg` with a base layer and a bundle.
  unfoldable pub fill_with :
      (LayerDir → Text)
      → Text
      → RuntimeLayer
      → RunContext
      → ContainerCfgBuilder
      → Result ContainerCfgBuilder
  unfolding set_app set_runtime ext_mounts fill_extra_app_mounts append_env
  fill_with files bundle base c b = do
    path ← dir_files files base.layer_dir
    with_app ← set_app files c.app_output c.app_layer (record b { base_path = some (path, true) })
    with_runtime ← set_runtime files c.runtime_output c.runtime_layer with_app
    mounts ← ext_mounts files c.target_id c.extension_output c.extension_layers
    filled ←
        fill_extra_app_mounts bundle c
          (record (set_extension_mounts (output_mount c.target_id c.extension_output ++ mounts)
            with_runtime) { bundle_path = bundle })
    ok (record filled { env_append = append_env c.environment filled.env_append })

  abbrev pub fill_on :
      (LayerDir → Text)
      → Result Text
      → Option RuntimeLayer
      → RunContext
      → ContainerCfgBuilder
      → Result ContainerCfgBuilder
  fill_on files bundle none c b = err not_resolved
  fill_on files (err e) (some base) c b = err bundle_failed
  fill_on files (ok bundle) (some base) c b = fill_with files bundle base c b

  -- `fillContextCfg`; `bundle` is the result of `makeBundleDir`.
  unfoldable pub fill_context_cfg :
      (LayerDir → Text)
      → Result Text
      → RunContext
      → ContainerCfgBuilder
      → Result ContainerCfgBuilder
  unfolding fill_with
  fill_context_cfg files bundle c b = fill_on files bundle c.base_layer c b
