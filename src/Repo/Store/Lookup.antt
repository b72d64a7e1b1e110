-- ===== src/Repo/Store/Lookup.antt =====
-- repo/ostree_repo.cpp: what `getLayerItem` finds.
use linyaps.Prelude.{
  ◌≡◌, refl, sym, ap, ◌∙◌, Bool, true, false, not, ◌&&◌, ◌||◌, Option, none, some, List, [], ◌∷◌,
  Text, codes, text_eq, any, Memᴰ, arith, ◌⊎◌, inl, inr, Bool-cases, ◌<◌, subst, if◌then◌else◌,
}
use linyaps.Prelude.Sort.{count_if}
use linyaps.Error.{Result, ok, err, ambiguous_layer, layer_missing}
use linyaps.Qt.{Qt}
use linyaps.Semver.{Semver}
use linyaps.Package.Reference.{Reference}
use linyaps.Repo.Config.{Repo, RepoConfigV2, alias_or, get_default_repo}
use linyaps.Repo.Cache.{LayersItem, RepoCache}
use linyaps.Repo.Cache.Query.{RepoCacheQuery, selects, query_layer_item}
use linyaps.Repo.Cache.Query.Found.{any-query, query-Mem}
use linyaps.Repo.Cache.Query.Order.{query-count_selects}
use linyaps.Repo.Store.{new_module, item_query, first_or, only_or, get_layer_item}

module _ (in_default fits_any : LayersItem → Bool) (layers : List LayersItem) where
  -- A layer that fits, of the default repository if that has one; or none fits; or the default
  -- repository has several.
  abbrev pub IsFound : Result LayersItem → Type 0
  IsFound (ok item) =
      Memᴰ item layers
      × (fits_any item ≡ true)
      × ((in_default item || not (any in_default layers)) ≡ true)
  IsFound (err e) =
      (e ≡ layer_missing) × (any fits_any layers ≡ false)
      ⊎ (e ≡ ambiguous_layer) × (1 < count_if in_default layers)

module _ (qt : Qt) (sv : Semver) where
  -- Whether a layer may be meant, in any repository: `runtime` is what `binary` was called.
  abbrev pub fits : Reference → Text → Option Text → LayersItem → Bool
  fits ref name sub_ref layer =
      selects (item_query qt sv ref none name sub_ref) layer
      || (text_eq name (codes "binary")
          && selects (item_query qt sv ref none (codes "runtime") sub_ref) layer)

  module _ (c : RepoCache) where
    any-true :
        (p : LayersItem → Bool) (items : List LayersItem)
        → any (λ item. p item && true) items ≡ any p items
    any-true p [] = refl
    any-true p (x ∷ xs) = ground (arith, any-true p xs)

    count-true :
        (p : LayersItem → Bool) (items : List LayersItem)
        → count_if (λ item. p item && true) items ≡ count_if p items
    count-true p [] = refl
    count-true p (x ∷ xs) = ground (arith, count-true p xs)

    -- A query finds nothing only where no layer has what it asks for.
    none-found :
        (query : RepoCacheQuery)
        → query_layer_item qt sv c query ≡ []
        → any (selects query) c.cache.layers ≡ false
    none-found query h =
        sym (any-true (selects query) c.cache.layers)
        ∙ sym (any-query qt sv c query (λ item. true))
        ∙ ap (any (λ item. true)) h

    first-found :
        (query : RepoCacheQuery) (item : LayersItem) (items : List LayersItem)
        → query_layer_item qt sv c query ≡ item ∷ items
        → Memᴰ item c.cache.layers × (selects query item ≡ true)
    first-found query item items h =
        query-Mem qt sv c query item (subst (Memᴰ item) (sym h) (Memᴰ.head refl))

    several-found :
        (query : RepoCacheQuery) (item other : LayersItem) (items : List LayersItem)
        → query_layer_item qt sv c query ≡ item ∷ other ∷ items
        → 1 < count_if (selects query) c.cache.layers
    several-found query item other items h =
        let counted =
          sym (ap (count_if (λ item. true)) h)
          ∙ query-count_selects qt sv c query (λ item. true)
          ∙ count-true (selects query) c.cache.layers in
        omega (arith, counted)

    module _ (ref : Reference) (alias name : Text) (sub_ref : Option Text) where
      abbrev in_default : LayersItem → Bool
      in_default = selects (item_query qt sv ref (some alias) name sub_ref)

      abbrev in_any : LayersItem → Bool
      in_any = selects (item_query qt sv ref none name sub_ref)

      abbrev as_runtime : LayersItem → Bool
      as_runtime = selects (item_query qt sv ref none (codes "runtime") sub_ref)

      default-any : (item : LayersItem) → in_default item ≡ true → in_any item ≡ true
      unfolding selects item_query
      default-any item h = ground (arith, h)

      any-fits :
          (layers : List LayersItem)
          → (text_eq name (codes "binary") ≡ false) ⊎ (any as_runtime layers ≡ false)
          → any in_any layers ≡ false
          → any (fits ref name sub_ref) layers ≡ false
      any-fits [] e h = refl
      any-fits (x ∷ xs) (inl e) h = ground (arith, e, h, any-fits xs (inl e))
      any-fits (x ∷ xs) (inr e) h =
          let later = any-fits xs (inr (ground (arith, e))) (ground (arith, h)) in
          ground (arith, e, h, later)

      IsFound-runtime :
          (r : List LayersItem)
          → text_eq name (codes "binary") ≡ true
          → query_layer_item qt sv c (item_query qt sv ref none (codes "runtime") sub_ref) ≡ r
          → any in_default c.cache.layers ≡ false
          → any in_any c.cache.layers ≡ false
          → IsFound in_default
              (fits ref name sub_ref)
              c.cache.layers
              (first_or r (err layer_missing))
      IsFound-runtime [] e l h k =
          let none_runtime = none-found (item_query qt sv ref none (codes "runtime") sub_ref) l in
          inl (refl, any-fits c.cache.layers (inr none_runtime) k)
      IsFound-runtime (item ∷ r) e l h k =
          let (member, selected) =
            first-found (item_query qt sv ref none (codes "runtime") sub_ref) item r l in
          (member, ground (arith, e, selected), ground (arith, h))

      -- What the three queries find decides.
      IsFound-IsFound :
          (d a r : List LayersItem)
          → query_layer_item qt sv c (item_query qt sv ref (some alias) name sub_ref) ≡ d
          → query_layer_item qt sv c (item_query qt sv ref none name sub_ref) ≡ a
          → query_layer_item qt sv c (item_query qt sv ref none (codes "runtime") sub_ref) ≡ r
          → IsFound in_default (fits ref name sub_ref) c.cache.layers (
              only_or d (
                first_or a (
                  if not (text_eq name (codes "binary"))
                  then err layer_missing
                  else first_or r (err layer_missing))))
      IsFound-IsFound (item ∷ []) a r h k l =
          let (member, selected) =
            first-found (item_query qt sv ref (some alias) name sub_ref) item [] h in
          let general = default-any item selected in (member, rw general refl, rw selected refl)
      IsFound-IsFound (item ∷ other ∷ d) a r h k l =
          inr (refl, several-found (item_query qt sv ref (some alias) name sub_ref) item other d h)
      IsFound-IsFound [] (item ∷ a) r h k l =
          let (member, selected) = first-found (item_query qt sv ref none name sub_ref) item a k in
          let none_default = none-found (item_query qt sv ref (some alias) name sub_ref) h in
          (member, rw selected refl, ground (arith, none_default))
      IsFound-IsFound [] [] r h k l =
          let none_default = none-found (item_query qt sv ref (some alias) name sub_ref) h in
          let none_any = none-found (item_query qt sv ref none name sub_ref) k in
          elim (Bool-cases (text_eq name (codes "binary"))) [
            | inl e ↦ rw e (IsFound-runtime r e l none_default none_any)
            | inr e ↦ rw e (inl (refl, any-fits c.cache.layers (inl e) none_any))
          ]

    -- Where there is a default repository: the layer that `getLayerItem` finds is in the cache, has
    -- what is asked for, where `runtime` is another name of the module `binary`, and is one of the
    -- default repository's, if the cache has such a layer of it; it fails as missing only where no
    -- layer of the cache has what is asked for, and as ambiguous only where several of the default
    -- repository do.
    pub get_layer_item-IsFound :
        (cfg : RepoConfigV2) (default : Repo) (ref : Reference) (asked : Text)
        (sub_ref : Option Text)
        → get_default_repo cfg ≡ some default
        → IsFound
            (selects (
              item_query qt sv ref
                (some (alias_or default.alias default.name))
                (new_module asked)
                sub_ref))
            (fits ref (new_module asked) sub_ref)
            c.cache.layers
            (get_layer_item qt sv c cfg ref asked sub_ref)
    unfolding get_layer_item
    get_layer_item-IsFound cfg default ref asked sub_ref h =
        let alias = alias_or default.alias default.name in
        let name = new_module asked in
        rw h (
          IsFound-IsFound ref alias name sub_ref
            (query_layer_item qt sv c (item_query qt sv ref (some alias) name sub_ref))
            (query_layer_item qt sv c (item_query qt sv ref none name sub_ref))
            (query_layer_item qt sv c (item_query qt sv ref none (codes "runtime") sub_ref)) refl
            refl refl)
