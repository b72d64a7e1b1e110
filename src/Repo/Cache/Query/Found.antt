-- ===== src/Repo/Cache/Query/Found.antt =====
-- repo/repo_cache.cpp: the layers that `queryLayerItem` finds, as layers of the cache.
use linyaps.Prelude.{
  ◌≡◌, sym, ap, ◌∙◌, Bool, true, not, ◌&&◌, any, keep_if, Memᴰ, Mem-All, keep_if-All, ◌==◌,
}
use linyaps.Prelude.Sort.{sort, any-count_if, All-sort}
use linyaps.Qt.{Qt}
use linyaps.Semver.{Semver}
use linyaps.Repo.Cache.{LayersItem, RepoCache}
use linyaps.Repo.Cache.Query.{RepoCacheQuery, selects, newer, query_layer_item}
use linyaps.Repo.Cache.Query.Order.{query-count_selects}

module _ (qt : Qt) (sv : Semver) where
  pub any-query :
      (c : RepoCache) (query : RepoCacheQuery) (p : LayersItem → Bool)
      → any p (query_layer_item qt sv c query)
        ≡ any (λ layer. selects query layer && p layer) c.cache.layers
  any-query c query p =
      any-count_if p (query_layer_item qt sv c query)
      ∙ ap (λ n. not (n == 0)) (query-count_selects qt sv c query p)
      ∙ sym (any-count_if (λ layer. selects query layer && p layer) c.cache.layers)

  pub query-Mem :
      (c : RepoCache) (query : RepoCacheQuery) (item : LayersItem)
      → Memᴰ item (query_layer_item qt sv c query)
      → Memᴰ item c.cache.layers × (selects query item ≡ true)
  unfolding query_layer_item
  query-Mem c query item m =
      let IsSelected : LayersItem → Type 0 =
        λ x. Memᴰ x c.cache.layers × (selects query x ≡ true) in
      let selected = keep_if (selects query) c.cache.layers in
      Mem-All IsSelected item (sort (newer qt sv) selected) m
        (All-sort (newer qt sv) IsSelected selected (keep_if-All (selects query) c.cache.layers))
