-- ===== src/Repo/Cache/Written.antt =====
-- repo/repo_cache.cpp: what the cache file holds after a call.
use linyaps.Prelude.{◌≡◌, refl, if◌then◌else◌, Option, none, some, List, [], ◌∷◌, ◌++◌, Text}
use linyaps.Error.{ok, err}
use linyaps.Repo.Cache.{
  LayersItem, MergedItem, RepoCache, Disk, no_parent, no_temp_file, no_rename, no_version_file,
  all_written, unchecked, is_whole, Method, write_to_disk, find_matching_item, erase_matching,
  set_layers, add_layer_item, delete_layer_item, add_unless, delete_found, update_merged_items,
}

-- After a success the file holds the cache, or does not load if it was cut off; after a failure it
-- holds what it held before.
abbrev pub IsWritten : Disk → RepoCache → Method (Unit {0}) → Type 0
IsWritten disk c (ok u, d) = d.file ≡ (if is_whole disk then some d.cache else none)
IsWritten disk c (err e, d) = d.file ≡ c.file

write-IsWritten : (v : Text) (d : Disk) (c : RepoCache) → IsWritten d c (write_to_disk v d c)
unfolding write_to_disk
write-IsWritten v no_parent c = refl
write-IsWritten v no_temp_file c = refl
write-IsWritten v no_rename c = refl
write-IsWritten v no_version_file c = refl
write-IsWritten v all_written c = refl
write-IsWritten v (unchecked whole tag) c = refl

add-IsWritten :
    (v : Text) (d : Disk) (item : LayersItem) (c : RepoCache) (o : Option LayersItem)
    → IsWritten d c (add_unless v d item c o)
unfolding add_unless
add-IsWritten v d item c none = write-IsWritten v d (set_layers (c.cache.layers ++ item ∷ []) c)
add-IsWritten v d item c (some val) = refl

delete-IsWritten :
    (v : Text) (d : Disk) (item : LayersItem) (c : RepoCache) (o : Option LayersItem)
    → IsWritten d c (delete_found v d item c o)
unfolding delete_found
delete-IsWritten v d item c none = refl
delete-IsWritten v d item c (some val) =
    write-IsWritten v d (set_layers (erase_matching item c.cache.layers) c)

-- `addLayerItem`, `deleteLayerItem` and `updateMergedItems` either fail, and then the cache file holds
-- what it held before, or succeed, and then it holds the cache in memory if what was written to it is
-- whole, and does not load if it was cut off.
pub methods-IsWritten :
    (v : Text) (d : Disk) (item : LayersItem) (items : List MergedItem) (c : RepoCache)
    → IsWritten d c (add_layer_item v d item c)
      × IsWritten d c (delete_layer_item v d item c)
      × IsWritten d c (update_merged_items v d items c)
unfolding add_layer_item delete_layer_item update_merged_items
methods-IsWritten v d item items c = (
  add-IsWritten v d item c (find_matching_item item c.cache.layers),
  delete-IsWritten v d item c (find_matching_item item c.cache.layers),
  write-IsWritten v d (record c { cache = record c.cache { merged = some items } }),
)
