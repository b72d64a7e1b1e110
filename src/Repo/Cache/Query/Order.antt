-- ===== src/Repo/Cache/Query/Order.antt =====
-- repo/repo_cache.cpp: what `queryLayerItem` finds, and in which order.
use linyaps.Prelude.{
  ◌≡◌, refl, sym, ◌∙◌, Bool, true, false, ◌&&◌, List, [], ◌∷◌, All, keep_if, arith, Bool-cases, inl,
  inr,
}
use linyaps.Prelude.Sort.{count_if, count-sort, All-sort, IsSorted, sort-IsSorted}
use linyaps.Error.{ok}
use linyaps.Qt.{Qt}
use linyaps.Semver.{Semver, PrecedenceLaws}
use linyaps.Package.Version.{Version, default_options, gt, parse}
use linyaps.Package.Version.Order.{IsOrdered, trichotomy, lt-not_trans}
use linyaps.Repo.Cache.{LayersItem, RepoCache}
use linyaps.Repo.Cache.Query.{RepoCacheQuery, selects, newer, query_layer_item}

count_if-keep_if :
    (p q : LayersItem → Bool) (xs : List LayersItem)
    → count_if p (keep_if q xs) ≡ count_if (λ x. q x && p x) xs
count_if-keep_if p q [] = refl
count_if-keep_if p q (x ∷ xs) = ground (arith, count_if-keep_if p q xs)

pub query-count_selects :
    (qt : Qt) (sv : Semver) (c : RepoCache) (query : RepoCacheQuery) (p : LayersItem → Bool)
    → count_if p (query_layer_item qt sv c query)
      ≡ count_if (λ layer. selects query layer && p layer) c.cache.layers
unfolding query_layer_item
query-count_selects qt sv c query p =
    count-sort (newer qt sv) p (keep_if (selects query) c.cache.layers)
    ∙ count_if-keep_if p (selects query) c.cache.layers

module _ (qt : Qt) (sv : Semver) where
  -- The layer's version parses, and is one that `<` orders.
  abbrev pub IsVersioned : LayersItem → Type 0
  IsVersioned layer =
      (v : Version) × (parse qt sv layer.info.version default_options ≡ ok v) × IsOrdered v

  newer-gt :
      (a b : LayersItem) (v w : Version)
      → parse qt sv a.info.version default_options ≡ ok v
      → parse qt sv b.info.version default_options ≡ ok w
      → newer qt sv a b ≡ gt qt sv v w
  unfolding newer
  newer-gt a b v w h k = rw (h, k)

  All-keep_if :
      (p : LayersItem → Bool) (xs : List LayersItem)
      → All IsVersioned xs
      → All IsVersioned (keep_if p xs)
  All-keep_if p [] hs = tt
  All-keep_if p (x ∷ xs) hs = elim (Bool-cases (p x)) [
    | inl e ↦ rw e (hs.0, All-keep_if p xs hs.1)
    | inr e ↦ rw e (All-keep_if p xs hs.1)
  ]

  -- The versions of two layers, of which the later one has no greater version.
  abbrev pub NotBelow : LayersItem → LayersItem → Type 0
  NotBelow x y =
      (v : Version) × (w : Version) × (parse qt sv x.info.version default_options ≡ ok v)
      × (parse qt sv y.info.version default_options ≡ ok w)
      × (gt qt sv w v ≡ false)

  abbrev pub IsNewestFirst : List LayersItem → Type 0
  IsNewestFirst [] = Unit
  IsNewestFirst (x ∷ xs) = All (NotBelow x) xs × IsNewestFirst xs

  NotBelow-sorted :
      (x : LayersItem) (ys : List LayersItem)
      → IsVersioned x
      → All IsVersioned ys
      → All (λ y. newer qt sv y x ≡ false) ys
      → All (NotBelow x) ys
  NotBelow-sorted x [] h hs s = tt
  NotBelow-sorted x (y ∷ ys) (v, p, h) ((w, q, k), hs) s =
      ((v, w, p, q, sym (newer-gt y x w v q p) ∙ s.0), NotBelow-sorted x ys (v, p, h) hs s.1)

  IsNewestFirst-sorted :
      (xs : List LayersItem) → All IsVersioned xs → IsSorted (newer qt sv) xs → IsNewestFirst xs
  IsNewestFirst-sorted [] hs s = tt
  IsNewestFirst-sorted (x ∷ xs) hs s =
      (NotBelow-sorted x xs hs.0 hs.1 s.0, IsNewestFirst-sorted xs hs.1 s.1)

  module _ (laws : PrecedenceLaws sv) where
    pub newer-asym :
        (a b : LayersItem)
        → IsVersioned a
        → IsVersioned b
        → newer qt sv a b ≡ true
        → newer qt sv b a ≡ false
    newer-asym a b (v, p, h) (w, q, k) e = ground (
      arith,
      newer-gt a b v w p q,
      newer-gt b a w v q p,
      trichotomy qt sv laws v w h k,
      trichotomy qt sv laws w v k h,
    )

    pub newer-not_trans :
        (a b c : LayersItem)
        → IsVersioned a
        → IsVersioned b
        → IsVersioned c
        → newer qt sv b a ≡ false
        → newer qt sv c b ≡ false
        → newer qt sv c a ≡ false
    newer-not_trans a b c (u, o, g) (v, p, h) (w, q, k) e f = ground (
      arith,
      newer-gt b a v u p o,
      newer-gt c b w v q p,
      newer-gt c a w u q o,
      trichotomy qt sv laws v u h g,
      trichotomy qt sv laws w v k h,
      trichotomy qt sv laws w u k g,
      lt-not_trans qt sv laws w v u k h g,
    )

    pub query_layer_item-IsSorted :
        (c : RepoCache) (query : RepoCacheQuery)
        → All IsVersioned c.cache.layers
        → All IsVersioned (query_layer_item qt sv c query)
          × IsSorted (newer qt sv) (query_layer_item qt sv c query)
    unfolding query_layer_item
    query_layer_item-IsSorted c query hs =
        let selected = keep_if (selects query) c.cache.layers in
        let kept = All-keep_if (selects query) c.cache.layers hs in
        (
          All-sort (newer qt sv) IsVersioned selected kept,
          sort-IsSorted (newer qt sv) IsVersioned newer-asym newer-not_trans selected kept,
        )

    -- Where the versions of all layers in the cache parse to versions that `<` orders, so do those
    -- of the layers found, and none is `>` than the version of a layer before it.
    pub query_layer_item-IsNewestFirst :
        (c : RepoCache) (query : RepoCacheQuery)
        → All IsVersioned c.cache.layers
        → IsNewestFirst (query_layer_item qt sv c query)
    query_layer_item-IsNewestFirst c query hs =
        let (versioned, sorted) = query_layer_item-IsSorted c query hs in
        IsNewestFirst-sorted (query_layer_item qt sv c query) versioned sorted
