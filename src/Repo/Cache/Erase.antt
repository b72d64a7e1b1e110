-- ===== src/Repo/Cache/Erase.antt =====
-- repo/repo_cache.cpp: what `deleteLayerItem` erases.
use linyaps.Prelude.{
  ◌≡◌, refl, sym, ap, ◌∙◌, false, some, List, [], ◌∷◌, Text, All, Memᴰ, arith, Bool-cases, inl, inr,
}
use linyaps.Repo.Cache.{
  LayersItem, RepoCache, Disk, no_parent, no_temp_file, no_rename, no_version_file, all_written,
  unchecked, set_layers, find_matching_item, erase_matching, matches, write_to_disk,
  delete_layer_item, delete_found,
}
use linyaps.Repo.Cache.Layers.{matches_refl}

pub All-erase {κ} :
    (P : LayersItem → Type κ) (item : LayersItem) (xs : List LayersItem)
    → All P xs
    → All P (erase_matching item xs)
unfolding erase_matching
All-erase P item [] hs = tt
All-erase P item (x ∷ xs) hs = elim (Bool-cases (matches item x)) [
  | inl e ↦ rw e hs.1
  | inr e ↦ rw e (hs.0, All-erase P item xs hs.1)
]

pub member-tail :
    (item x : LayersItem) (xs : List LayersItem)
    → matches item x ≡ false
    → Memᴰ item (x ∷ xs)
    → Memᴰ item xs
member-tail item x xs h (Memᴰ.head e) =
    let same = sym (ap (matches item) e) ∙ matches_refl item in ground (arith, h, same)
member-tail item x xs h (Memᴰ.tail m) = m

pub find-Mem :
    (item : LayersItem) (xs : List LayersItem)
    → Memᴰ item xs
    → (it : LayersItem) × (find_matching_item item xs ≡ some it)
unfolding find_matching_item
find-Mem item [] m = elim m [ ]
find-Mem item (x ∷ xs) m = elim (Bool-cases (matches item x)) [
  | inl e ↦ (x, rw e refl)
  | inr e ↦ let (it, h) = find-Mem item xs (member-tail item x xs e m) in (it, rw e h)
]

write-layers :
    (v : Text) (disk : Disk) (c : RepoCache)
    → (write_to_disk v disk c).1.cache.layers ≡ c.cache.layers
unfolding write_to_disk
write-layers v no_parent c = refl
write-layers v no_temp_file c = refl
write-layers v no_rename c = refl
write-layers v no_version_file c = refl
write-layers v all_written c = refl
write-layers v (unchecked whole tag) c = refl

-- What the call of `deleteLayerItem` leaves of the layers, whether the file is written or not.
pub delete-layers :
    (v : Text) (disk : Disk) (item it : LayersItem) (c : RepoCache)
    → find_matching_item item c.cache.layers ≡ some it
    → (delete_layer_item v disk item c).1.cache.layers ≡ erase_matching item c.cache.layers
unfolding delete_layer_item linyaps.Repo.Cache.delete_found
delete-layers v disk item it c h =
    rw h (write-layers v disk (set_layers (erase_matching item c.cache.layers) c))
