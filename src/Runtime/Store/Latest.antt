-- ===== src/Runtime/Store/Latest.antt =====
-- runtime/run_context.cpp on repo/ostree_repo.cpp: the base of a run is the newest that is installed.
use linyaps.Prelude.{
  ◌≡◌, sym, subst, ◌∙◌, true, false, Option, List, [], ◌∷◌, Text, codes, text_eq, All,
}
use linyaps.Error.{Result, ok, err, >>=-eq-ok, ok-injective}
use linyaps.Qt.{Qt}
use linyaps.Semver.{Semver, PrecedenceLaws}
use linyaps.Package.Architecture.{Architecture}
use linyaps.Package.Version.{Version}
use linyaps.Package.Info.{PackageInfoV2}
use linyaps.Package.Reference
use linyaps.Package.Reference.{Reference}
use linyaps.Package.FuzzyReference
use linyaps.Package.FuzzyReference.{FuzzyReference}
use linyaps.Repo.Config.{Repo, RepoConfigV2}
use linyaps.Repo.Cache.{LayersItem, RepoCache}
use linyaps.Repo.Cache.Query.{query_layer_item}
use linyaps.Repo.Cache.Query.Order.{IsVersioned}
use linyaps.Repo.Resolve.{
  check_arch, of_id, parse_wanted, find_available, find_layer, clear_reference_local, or_remote,
  clear_reference,
}
use linyaps.Repo.Resolve.Latest.{is_usable, IsLatest, find_layer-IsLatest}
use linyaps.Repo.Store.{OstreeRepo}
use linyaps.Repo.Merge.{MergeSystem}
use linyaps.Runtime.Environment.{value_or}
use linyaps.Runtime.Layer.{clear_text}
use linyaps.Runtime.Layers.{RunContext}
use linyaps.Runtime.RunContext.{ResolveOptions, resolve}
use linyaps.Runtime.RunContext.Ready.{IsLayerOf, IsResolved, resolve-IsResolved}
use linyaps.Runtime.Store.{store_repo}

module _ (qt : Qt) (sv : Semver) (laws : PrecedenceLaws sv) where
  -- A reference of the newest layer that a fuzzy one stands for.
  abbrev pub IsNewestOf : RepoCache → FuzzyReference → Reference → Type 0
  IsNewestOf c fuzzy reference =
      (item : LayersItem) × (wanted : Option Version) × (Reference.from_package_info qt sv item.info
        ≡ ok reference)
      × (parse_wanted qt sv fuzzy.version ≡ ok wanted)
      × IsLatest qt sv (is_usable qt sv fuzzy.id wanted true) (ok item) c.cache.layers

  or_remote-local :
      (list : FuzzyReference → Repo → Result (List PackageInfoV2))
      (installed remote : Result Reference) (reference : Reference)
      → or_remote qt sv list false installed remote ≡ ok reference
      → installed ≡ ok reference
  unfolding or_remote
  or_remote-local list (ok r) remote reference h = h
  or_remote-local list (err e) remote reference h = h

  available-wanted :
      (raw : Option Text) (items : List LayersItem) (item : LayersItem)
      → find_available qt sv raw true items ≡ ok item
      → (wanted : Option Version) × (parse_wanted qt sv raw ≡ ok wanted)
  unfolding find_available
  available-wanted raw [] item h = cc
  available-wanted raw (x ∷ xs) item h =
      let (wanted, e, k) = >>=-eq-ok (parse_wanted qt sv raw) _ h in (wanted, e)

  found-wanted :
      (host : Result Architecture) (c : RepoCache) (fuzzy : FuzzyReference) (item : LayersItem)
      → find_layer qt sv host c fuzzy true ≡ ok item
      → (check_arch host fuzzy.arch ≡ ok tt)
        × ((wanted : Option Version) × (parse_wanted qt sv fuzzy.version ≡ ok wanted))
  unfolding find_layer
  found-wanted host c fuzzy item h =
      let (checked, e, k) = >>=-eq-ok (check_arch host fuzzy.arch) _ h in
      (e, available-wanted fuzzy.version (query_layer_item qt sv c (of_id fuzzy.id)) item k)

  local-IsNewestOf :
      (host : Result Architecture) (c : RepoCache) (fuzzy : FuzzyReference) (reference : Reference)
      → All (IsVersioned qt sv) c.cache.layers
      → clear_reference_local qt sv host c fuzzy true ≡ ok reference
      → IsNewestOf c fuzzy reference
  unfolding clear_reference_local
  local-IsNewestOf host c fuzzy reference hs h =
      let (item, e, k) = >>=-eq-ok (find_layer qt sv host c fuzzy true) _ h in
      let (checked, (wanted, parsed)) = found-wanted host c fuzzy item e in
      (
        item,
        wanted,
        k,
        parsed,
        subst (λ found. IsLatest qt sv (is_usable qt sv fuzzy.id wanted true) found c.cache.layers)
            e (find_layer-IsLatest qt sv laws host c fuzzy true wanted checked parsed hs),
      )

  module _ (list : FuzzyReference → Repo → Result (List PackageInfoV2)) (host : Result Architecture)
      (cfg : RepoConfigV2) (system : MergeSystem) (dirs : List Text) (s : OstreeRepo) where
    clear-IsNewestOf :
        (fuzzy : FuzzyReference) (reference : Reference)
        → All (IsVersioned qt sv) s.cache.cache.layers
        → (store_repo qt sv list host cfg system dirs s).clear fuzzy ≡ ok reference
        → IsNewestOf s.cache fuzzy reference
    unfolding store_repo clear_reference
    clear-IsNewestOf fuzzy reference hs h =
        local-IsNewestOf host s.cache fuzzy reference hs
          (or_remote-local list (clear_reference_local qt sv host s.cache fuzzy true) _ reference h)

    text-IsNewestOf :
        (text : Text) (reference : Reference)
        → All (IsVersioned qt sv) s.cache.cache.layers
        → clear_text (store_repo qt sv list host cfg system dirs s) text ≡ ok reference
        → (fuzzy : FuzzyReference) × (FuzzyReference.parse text ≡ ok fuzzy)
          × IsNewestOf s.cache fuzzy reference
    unfolding clear_text
    text-IsNewestOf text reference hs h =
        let (fuzzy, e, k) = >>=-eq-ok (FuzzyReference.parse text) _ h in
        (fuzzy, e, clear-IsNewestOf fuzzy reference hs k)

    -- Where the versions of all layers in the cache parse to versions that `<` orders, and `resolve`
    -- of a reference succeeds on them: if the reference's layer is not a base, the text that names
    -- its base reads as a fuzzy reference, and the base layer is that of a layer of the cache that
    -- is not deleted and has its identifier and a version that is wanted, by `semanticMatch` or
    -- `==`, and there is none that is newer.
    pub resolve-IsNewestOf :
        (enables : Text → Option Text) (container_id : Text) (runnable : Reference)
        (options : ResolveOptions) (c after : RunContext) (item : LayersItem)
        → All (IsVersioned qt sv) s.cache.cache.layers
        → resolve
            (store_repo qt sv list host cfg system dirs s)
            enables
            container_id
            runnable
            options
            c
          ≡ ok after
        → (store_repo qt sv list host cfg system dirs s).item runnable ≡ ok item
        → text_eq item.info.kind (codes "base") ≡ false
        → (fuzzy : FuzzyReference) × (base : Reference) × (FuzzyReference.parse
              (value_or options.base_ref item.info.base)
            ≡ ok fuzzy)
          × IsNewestOf s.cache fuzzy base
          × IsLayerOf base after.base_layer
    resolve-IsNewestOf enables container_id runnable options c after item hs h k e =
        let (found, p, resolved) =
          resolve-IsResolved (store_repo qt sv list host cfg system dirs s) enables container_id
            runnable options c after h in
        let repo = store_repo qt sv list host cfg system dirs s in
        let same = ok-injective (sym p ∙ k) in
        let moved =
          subst
            (λ (i : LayersItem).
              IsResolved repo enables runnable options i.info after
                (text_eq i.info.kind (codes "base")))
            same resolved in
        let (base, cleared, ready, of_base) =
          subst (IsResolved repo enables runnable options item.info after) e moved in
        let (fuzzy, parsed, newest) =
          text-IsNewestOf (value_or options.base_ref item.info.base) base hs cleared in
        (fuzzy, base, parsed, newest, of_base)
