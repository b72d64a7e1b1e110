-- ===== src/Repo/Resolve/Latest.antt =====
-- repo/ostree_repo.cpp: which layer `clearReferenceLocal` takes.
use linyaps.Prelude.{
  ◌≡◌, refl, sym, ◌∙◌, Bool, true, false, not, ◌&&◌, Option, List, [], ◌∷◌, Text, All, any, Memᴰ,
  arith, Bool-cases, inl, inr,
}
use linyaps.Prelude.Sort.{IsSorted}
use linyaps.Error.{Result, ok, err}
use linyaps.Qt.{Qt}
use linyaps.Semver.{Semver, PrecedenceLaws}
use linyaps.Package.Architecture.{Architecture}
use linyaps.Package.Version.{Version, parse, default_options}
use linyaps.Package.FuzzyReference.{FuzzyReference}
use linyaps.Repo.Cache.{LayersItem, RepoCache, is_deleted}
use linyaps.Repo.Cache.Query.{selects, newer, query_layer_item}
use linyaps.Repo.Cache.Query.Found.{any-query, query-Mem}
use linyaps.Repo.Cache.Query.Order.{IsVersioned, newer-asym, query_layer_item-IsSorted}
use linyaps.Repo.Resolve.{
  check_arch, of_id, parse_wanted, wants, find_local, find_available, find_layer,
}

module _ (qt : Qt) (sv : Semver) where
  wants_parsed : Option Version → Bool → Result Version → Bool
  wants_parsed wanted semantic (ok v) = wants qt sv wanted semantic v
  wants_parsed wanted semantic (err e) = false

  -- A layer that is not deleted, of a version that is wanted.
  unfoldable pub is_taken : Option Version → Bool → LayersItem → Bool
  unfolding wants_parsed
  is_taken wanted semantic item =
      not (is_deleted item.deleted)
      && wants_parsed wanted semantic (parse qt sv item.info.version default_options)

  -- A layer that has the identifier too.
  abbrev pub is_usable : Text → Option Version → Bool → LayersItem → Bool
  is_usable id wanted semantic item = selects (of_id id) item && is_taken wanted semantic item

  -- The layer found is one of those that pass the test, and none of them is newer; if none is found,
  -- none passes.
  abbrev pub IsLatest : (LayersItem → Bool) → Result LayersItem → List LayersItem → Type 0
  IsLatest usable (ok item) layers =
      Memᴰ item layers
      × (usable item ≡ true)
      × (any (λ other. usable other && newer qt sv other item) layers ≡ false)
  IsLatest usable (err e) layers = any usable layers ≡ false

  find_local-taken :
      (wanted : Option Version) (semantic : Bool) (item : LayersItem) (items : List LayersItem)
      → is_taken wanted semantic item ≡ true
      → find_local qt sv wanted semantic (item ∷ items) ≡ ok item
  unfolding is_taken find_local
  find_local-taken wanted semantic item items h = ground arith

  find_local-skipped :
      (wanted : Option Version) (semantic : Bool) (item : LayersItem) (items : List LayersItem)
      → IsVersioned qt sv item
      → is_taken wanted semantic item ≡ false
      → find_local qt sv wanted semantic (item ∷ items) ≡ find_local qt sv wanted semantic items
  unfolding is_taken find_local
  find_local-skipped wanted semantic item items (v, p, h) k = ground (arith, p)

  IsLatest-later :
      (p : LayersItem → Bool) (item : LayersItem) (items : List LayersItem)
      (found : Result LayersItem)
      → p item ≡ false
      → IsLatest p found items
      → IsLatest p found (item ∷ items)
  IsLatest-later p item items (ok x) h (m, t, n) = (Memᴰ.tail m, t, ground (arith, h, n))
  IsLatest-later p item items (err e) h n = ground (arith, h, n)

  any-after :
      (p : LayersItem → Bool) (item : LayersItem) (items : List LayersItem)
      → All (λ y. newer qt sv y item ≡ false) items
      → any (λ other. p other && newer qt sv other item) items ≡ false
  any-after p item [] hs = refl
  any-after p item (x ∷ xs) hs = ground (arith, hs.0, any-after p item xs hs.1)

  any_assoc :
      (items : List LayersItem) (p q r : LayersItem → Bool)
      → any (λ x. (p x && q x) && r x) items ≡ any (λ x. p x && (q x && r x)) items
  any_assoc [] p q r = refl
  any_assoc (x ∷ xs) p q r = ground (arith, any_assoc xs p q r)

  module _ (laws : PrecedenceLaws sv) where
    newer_self : (item : LayersItem) → IsVersioned qt sv item → newer qt sv item item ≡ false
    newer_self item h = elim (Bool-cases (newer qt sv item item)) [
      | inl e ↦ newer-asym qt sv laws item item h h e
      | inr e ↦ e
    ]

    -- On layers in order, the first that is taken is the newest.
    find_local-IsLatest :
        (wanted : Option Version) (semantic : Bool) (items : List LayersItem)
        → All (IsVersioned qt sv) items
        → IsSorted (newer qt sv) items
        → IsLatest (is_taken wanted semantic) (find_local qt sv wanted semantic items) items
    find_local-IsLatest wanted semantic [] hs s = unfold find_local in refl
    find_local-IsLatest wanted semantic (x ∷ xs) (h, hs) (s, ss) =
        elim (Bool-cases (is_taken wanted semantic x)) [
          | inl e ↦ rw (find_local-taken wanted semantic x xs e) (
            Memᴰ.head refl,
            e,
            any-after (is_taken wanted semantic) x (x ∷ xs) (newer_self x h, s),
          )
          | inr e ↦ rw (find_local-skipped wanted semantic x xs h e) (
              IsLatest-later (is_taken wanted semantic) x xs (find_local qt sv wanted semantic xs) e
                (find_local-IsLatest wanted semantic xs hs ss))
        ]

    -- From the layers that a query finds to all layers.
    IsLatest-query :
        (c : RepoCache) (id : Text) (wanted : Option Version) (semantic : Bool)
        (found : Result LayersItem)
        → IsLatest (is_taken wanted semantic) found (query_layer_item qt sv c (of_id id))
        → IsLatest (is_usable id wanted semantic) found c.cache.layers
    IsLatest-query c id wanted semantic (err e) n =
        sym (any-query qt sv c (of_id id) (is_taken wanted semantic)) ∙ n
    IsLatest-query c id wanted semantic (ok item) (m, t, n) =
        let (member, selected) = query-Mem qt sv c (of_id id) item m in
        let beaten : LayersItem → Bool =
          λ other. is_taken wanted semantic other && newer qt sv other item in
        (
          member,
          rw (selected, t) refl,
          any_assoc c.cache.layers (selects (of_id id)) (is_taken wanted semantic)
                (λ other. newer qt sv other item)
              ∙ sym (any-query qt sv c (of_id id) beaten)
              ∙ n,
        )

    find_available-find_local :
        (raw : Option Text) (wanted : Option Version) (semantic : Bool) (items : List LayersItem)
        → parse_wanted qt sv raw ≡ ok wanted
        → All (IsVersioned qt sv) items
        → IsSorted (newer qt sv) items
        → IsLatest (is_taken wanted semantic) (find_available qt sv raw semantic items) items
    unfolding find_available
    find_available-find_local raw wanted semantic [] h hs s = refl
    find_available-find_local raw wanted semantic (x ∷ xs) h hs s =
        rw h (find_local-IsLatest wanted semantic (x ∷ xs) hs s)

    -- Where the architecture asked for, if any, is the host's, the version asked for, if any,
    -- parses, and the versions of all layers in the cache parse to versions that `<` orders: the
    -- layer that `clearReferenceLocal` takes is in the cache, has the identifier, is not deleted and
    -- has a version that is wanted, and no such layer of the cache is newer; it fails only where
    -- there is no such layer.
    pub find_layer-IsLatest :
        (host : Result Architecture) (c : RepoCache) (fuzzy : FuzzyReference) (semantic : Bool)
        (wanted : Option Version)
        → check_arch host fuzzy.arch ≡ ok tt
        → parse_wanted qt sv fuzzy.version ≡ ok wanted
        → All (IsVersioned qt sv) c.cache.layers
        → IsLatest
            (is_usable fuzzy.id wanted semantic)
            (find_layer qt sv host c fuzzy semantic)
            c.cache.layers
    unfolding find_layer
    find_layer-IsLatest host c fuzzy semantic wanted h k hs =
        let (versioned, sorted) = query_layer_item-IsSorted qt sv laws c (of_id fuzzy.id) hs in
        let found = query_layer_item qt sv c (of_id fuzzy.id) in
        rw h (
          IsLatest-query c fuzzy.id wanted semantic
            (find_available qt sv fuzzy.version semantic found)
            (find_available-find_local fuzzy.version wanted semantic found k versioned sorted))
