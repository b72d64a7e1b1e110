-- ===== src/Runtime/Layer.antt =====
-- runtime/run_context.h and run_context.cpp: `RuntimeLayer`, and the extensions of a layer.
use linyaps.Prelude.{Bool, true, false, ◌||◌, Option, none, some, List, [], ◌∷◌, ◌++◌, Text}
use linyaps.Error.{Result, ok, err, ◌>>=◌, layer_missing, app_not_found_from_local}
use linyaps.Package.Info.{ExtensionDefine}
use linyaps.Package.Reference.{Reference}
use linyaps.Package.FuzzyReference
use linyaps.Package.FuzzyReference.{FuzzyReference}
use linyaps.Repo.Cache.{LayersItem}
use linyaps.Repo.Modules.{LayerDir}

-- What a context asks of its `OSTreeRepo`: `clearReference` among what is installed, with versions
-- matched semantically; `getLayerItem` and the directories of a reference.
pub record LayerRepo : Type 0 where
  pub clear : FuzzyReference → Result Reference
  pub item : Reference → Result LayersItem
  pub merged_dir : Reference → Result LayerDir
  pub merged_of : Reference → List Text → Result LayerDir
  pub layer_dir : Reference → Text → Option Text → Result LayerDir
  pub differs : Reference → Reference → Bool

pub record RuntimeLayer : Type 0 where
  pub reference : Reference
  pub layer_dir : Option LayerDir
  pub cached_item : Option LayersItem
  pub temporary : Bool
  pub extension_of : Option ExtensionDefine

abbrev pub new_layer : Reference → RuntimeLayer
new_layer reference = record {
  reference = reference;
  layer_dir = none;
  cached_item = none;
  temporary = false;
  extension_of = none;
}

abbrev pub keep_item : RuntimeLayer → Result LayersItem → RuntimeLayer
keep_item layer (ok item) = record layer { cached_item = some item }
keep_item layer (err e) = layer

module _ (repo : LayerRepo) where
  unfoldable pub layer_dir_of : Reference → List Text → Option Text → Result LayerDir
  layer_dir_of reference [] sub_ref = repo.merged_dir reference
  layer_dir_of reference (name ∷ []) sub_ref = repo.layer_dir reference name sub_ref
  layer_dir_of reference (name ∷ other ∷ names) sub_ref =
      repo.merged_of reference (name ∷ other ∷ names)

  abbrev is_several : List Text → Bool
  is_several [] = false
  is_several (name ∷ []) = false
  is_several (name ∷ other ∷ names) = true

  -- `RuntimeLayer::resolveLayer`
  unfoldable pub resolve_layer_dir : List Text → Option Text → RuntimeLayer → Result RuntimeLayer
  unfolding layer_dir_of
  resolve_layer_dir modules sub_ref layer = do
    dir ← layer_dir_of layer.reference modules sub_ref
    ok (record layer { layer_dir = some dir; temporary = is_several modules || layer.temporary })

  abbrev pub or_item : Option LayersItem → Result LayersItem → Result LayersItem
  or_item none (ok item) = ok item
  or_item none (err e) = err layer_missing
  or_item (some item) found = ok item

  -- `getCachedItem`, and what it leaves in the layer.
  unfoldable pub get_cached_item : RuntimeLayer → Result LayersItem
  get_cached_item layer = or_item layer.cached_item (repo.item layer.reference)

  abbrev pub cached : RuntimeLayer → RuntimeLayer
  cached layer = keep_item layer (get_cached_item layer)

  -- `clearReference` of a text.
  unfoldable pub clear_text : Text → Result Reference
  clear_text text = do fuzzy ← FuzzyReference.parse text; repo.clear fuzzy

  -- The extensions of a layer, of which those that are installed are added. The code does
  -- not look whether `create` fails and reads its value; here such an extension is passed over.
  abbrev add_extension : ExtensionDefine → List RuntimeLayer → Result Reference → List RuntimeLayer
  add_extension extension layers (err e) = layers
  add_extension extension layers (ok reference) =
      layers ++ record (new_layer reference) { extension_of = some extension } ∷ []

  abbrev find_extension : Text → ExtensionDefine → Option Text → Result Reference
  find_extension channel extension none = err app_not_found_from_local
  find_extension channel extension (some name) = do
    fuzzy ← FuzzyReference.create (some channel) name (some extension.version) none
    repo.clear fuzzy

  module _ (enables : Text → Option Text) where
    unfoldable pub add_extensions :
        Text → List ExtensionDefine → List RuntimeLayer → List RuntimeLayer
    add_extensions channel [] layers = layers
    add_extensions channel (extension ∷ extensions) layers =
        add_extensions channel extensions (
          add_extension extension layers
            (find_extension channel extension (enables extension.name)))

    abbrev extensions_or : Option (List ExtensionDefine) → List ExtensionDefine
    extensions_or none = []
    extensions_or (some extensions) = extensions

    abbrev extensions_of : List RuntimeLayer → Result LayersItem → Result (List RuntimeLayer)
    extensions_of layers (err e) = err e
    extensions_of layers (ok item) =
        ok (add_extensions item.info.channel (extensions_or item.info.extensions) layers)

    -- `resolveExtension`: the extension layers after it.
    unfoldable pub resolve_extension : RuntimeLayer → List RuntimeLayer → Result (List RuntimeLayer)
    unfolding add_extensions get_cached_item
    resolve_extension layer layers = extensions_of layers (get_cached_item layer)

    abbrev pub or_same : List RuntimeLayer → Result (List RuntimeLayer) → List RuntimeLayer
    or_same layers (ok added) = added
    or_same layers (err e) = layers

    -- The extensions of a layer that is there; that they fail is not looked at.
    abbrev pub add_of : Option RuntimeLayer → List RuntimeLayer → List RuntimeLayer
    add_of none layers = layers
    add_of (some layer) layers = or_same layers (resolve_extension layer layers)
