-- ===== src/Repo/Cache/Rebuild.antt =====
-- repo/repo_cache.cpp: what `create` and `rebuildCache` leave in memory.
use linyaps.Prelude.{
  ◌≡◌, ◌≢◌, refl, Bool, true, false, not, ◌||◌, Option, none, some, List, Text, text_eq, text_eq→eq,
  arith, Bool-cases, inl, inr,
}
use linyaps.Repo.Config.{RepoConfigV2}
use linyaps.Repo.Cache.{
  RepoCache, RepositoryCache, Disk, no_parent, no_temp_file, no_rename, no_version_file,
  all_written, unchecked, write_to_disk, cache_file_version, RefEntry, layers_of, rebuild_cache,
  CacheFile, unknown, missing, invalid, loaded, create,
}

-- The cache is of this program's version and has this configuration.
abbrev pub IsCurrent : Text → RepoConfigV2 → RepositoryCache → Type 0
IsCurrent v config cache =
    (cache.version ≡ cache_file_version) × (cache.ll_version ≡ v) × (cache.config ≡ config)

write-IsCurrent :
    (v : Text) (d : Disk) (config : RepoConfigV2) (c : RepoCache)
    → IsCurrent v config c.cache
    → IsCurrent v config (write_to_disk v d c).1.cache
unfolding write_to_disk
write-IsCurrent v no_parent config c h = h
write-IsCurrent v no_temp_file config c h = h
write-IsCurrent v no_rename config c h = h
write-IsCurrent v no_version_file config c h = h
write-IsCurrent v all_written config c h = h
write-IsCurrent v (unchecked whole tag) config c h = h

rebuild-IsCurrent :
    (v : Text) (d : Disk) (root : Bool) (refs : Option (List RefEntry)) (config : RepoConfigV2)
    (c : RepoCache)
    → IsCurrent v config (rebuild_cache v d root refs config c).1.cache
unfolding rebuild_cache
rebuild-IsCurrent v d root none config c = (refl, refl, refl)
rebuild-IsCurrent v d true (some entries) config c = (refl, refl, refl)
rebuild-IsCurrent v d false (some entries) config c =
    let layers = layers_of entries in
    let filled = record c {
      cache = record c.cache {
        ll_version = v;
        config = config;
        version = cache_file_version;
        layers = layers;
      };
    } in
    write-IsCurrent v d config filled (refl, refl, refl)

-- Unless the existence of the cache file cannot be checked, the cache after `create` has the
-- current cache version, the program's version and the given configuration: a file of another
-- version is never kept.
pub create-IsCurrent :
    (v : Text) (d : Disk) (root : Bool) (refs : Option (List RefEntry)) (found : CacheFile)
    (config : RepoConfigV2) (c : RepoCache)
    → found ≢ unknown
    → IsCurrent v config (create v d root refs found config c).1.cache
unfolding create
create-IsCurrent v d root refs unknown config c h = absurd (h refl)
create-IsCurrent v d root refs missing config c h = rebuild-IsCurrent v d root refs config c
create-IsCurrent v d root refs invalid config c h = rebuild-IsCurrent v d root refs config c
create-IsCurrent v d root refs (loaded cache) config c h =
    elim (Bool-cases
      (not (text_eq cache.version cache_file_version) || not (text_eq cache.ll_version v))) [
        | inl e ↦ rw e (rebuild-IsCurrent v d root refs config (record c { cache = cache }))
        | inr e ↦ rw e (
          text_eq→eq cache.version cache_file_version (ground arith),
          text_eq→eq cache.ll_version v (ground arith),
          refl,
        )
      ]
