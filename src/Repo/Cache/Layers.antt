-- ===== src/Repo/Cache/Layers.antt =====
-- repo/repo_cache.cpp: `addLayerItem` and `deleteLayerItem` keep the layers apart, and undo each
-- other.
use linyaps.Prelude.{
  ◌≡◌, refl, sym, ◌∙◌, ap, subst, true, false, Option, none, some, List, [], ◌∷◌, ◌++◌, Text,
  text_eq, text_eq_refl, text_eq→eq, arith, Bool-cases, inl, inr,
}
use linyaps.Package.Reference.{front}
use linyaps.Repo.Cache.{
  LayersItem, RepoCache, Disk, no_parent, no_temp_file, no_rename, no_version_file, all_written,
  unchecked, write_to_disk, matches, find_matching_item, erase_matching, set_layers, add_layer_item,
  delete_layer_item, add_unless, delete_found,
}

-- No layer matches a later one.
abbrev pub IsUnique : List LayersItem → Type 0
IsUnique [] = Unit
IsUnique (x ∷ xs) = (find_matching_item x xs ≡ none) × IsUnique xs

pub matches_refl : (x : LayersItem) → matches x x ≡ true
unfolding matches
matches_refl x = ground (
  arith,
  text_eq_refl x.commit,
  text_eq_refl x.repo,
  text_eq_refl x.info.channel,
  text_eq_refl x.info.id,
  text_eq_refl x.info.version,
  text_eq_refl (front x.info.arch),
  text_eq_refl x.info.module_name,
)

pub text_eq_comm : (s t : Text) → text_eq s t ≡ text_eq t s
text_eq_comm s t = ground (arith, text_eq→eq s t, text_eq→eq t s, text_eq_refl s, text_eq_refl t)

matches_comm : (x y : LayersItem) → matches x y ≡ matches y x
unfolding matches
matches_comm x y = rw (
  text_eq_comm x.commit y.commit,
  text_eq_comm x.repo y.repo,
  text_eq_comm x.info.channel y.info.channel,
  text_eq_comm x.info.id y.info.id,
  text_eq_comm x.info.version y.info.version,
  text_eq_comm (front x.info.arch) (front y.info.arch),
  text_eq_comm x.info.module_name y.info.module_name,
)

find-snoc :
    (x item : LayersItem) (xs : List LayersItem)
    → find_matching_item x xs ≡ none
    → matches x item ≡ false
    → find_matching_item x (xs ++ item ∷ []) ≡ none
unfolding find_matching_item
find-snoc x item [] h e = rw e
find-snoc x item (y ∷ ys) h e = ground (arith, find-snoc x item ys)

find-none-head :
    (item x : LayersItem) (xs : List LayersItem)
    → find_matching_item item (x ∷ xs) ≡ none
    → (matches item x ≡ false) × (find_matching_item item xs ≡ none)
unfolding find_matching_item
find-none-head item x xs h = ground arith

IsUnique-snoc :
    (item : LayersItem) (xs : List LayersItem)
    → find_matching_item item xs ≡ none
    → IsUnique xs
    → IsUnique (xs ++ item ∷ [])
IsUnique-snoc item [] h u = (unfold find_matching_item in refl, tt)
IsUnique-snoc item (x ∷ xs) h u =
    let (e, k) = find-none-head item x xs h in
    (find-snoc x item xs u.0 (matches_comm x item ∙ e), IsUnique-snoc item xs k u.1)

find-miss :
    (item x : LayersItem) (xs : List LayersItem)
    → matches item x ≡ false
    → find_matching_item item (x ∷ xs) ≡ find_matching_item item xs
unfolding find_matching_item
find-miss item x xs e = rw e

erase-hit :
    (item x : LayersItem) (xs : List LayersItem)
    → matches item x ≡ true
    → erase_matching item (x ∷ xs) ≡ xs
unfolding erase_matching
erase-hit item x xs e = rw e

erase-miss :
    (item x : LayersItem) (xs : List LayersItem)
    → matches item x ≡ false
    → erase_matching item (x ∷ xs) ≡ x ∷ erase_matching item xs
unfolding erase_matching
erase-miss item x xs e = rw e

find-erase :
    (x item : LayersItem) (xs : List LayersItem)
    → find_matching_item x xs ≡ none
    → find_matching_item x (erase_matching item xs) ≡ none
find-erase x item [] h = unfold erase_matching in h
find-erase x item (y ∷ ys) h =
    let (e, k) = find-none-head x y ys h in
    elim (Bool-cases (matches item y)) [
      | inl m ↦ ap (find_matching_item x) (erase-hit item y ys m) ∙ k
      | inr m ↦
          ap (find_matching_item x) (erase-miss item y ys m)
          ∙ find-miss x y (erase_matching item ys) e
          ∙ find-erase x item ys k
    ]

IsUnique-erase :
    (item : LayersItem) (xs : List LayersItem) → IsUnique xs → IsUnique (erase_matching item xs)
IsUnique-erase item [] u = unfold erase_matching in tt
IsUnique-erase item (x ∷ xs) u = elim (Bool-cases (matches item x)) [
  | inl e ↦ subst IsUnique (sym (erase-hit item x xs e)) u.1
  | inr e ↦
      subst IsUnique (sym (erase-miss item x xs e))
        (find-erase x item xs u.0, IsUnique-erase item xs u.1)
]

erase-snoc :
    (item : LayersItem) (xs : List LayersItem)
    → find_matching_item item xs ≡ none
    → erase_matching item (xs ++ item ∷ []) ≡ xs
unfolding erase_matching
erase-snoc item [] h = rw (matches_refl item)
erase-snoc item (x ∷ xs) h =
    let (e, k) = find-none-head item x xs h in rw e (ap (λ l. x ∷ l) (erase-snoc item xs k))

find-snoc_self :
    (item : LayersItem) (xs : List LayersItem)
    → find_matching_item item xs ≡ none
    → find_matching_item item (xs ++ item ∷ []) ≡ some item
unfolding find_matching_item
find-snoc_self item [] h = rw (matches_refl item)
find-snoc_self item (x ∷ xs) h = ground (arith, find-snoc_self item xs)

write-cache : (v : Text) (d : Disk) (c : RepoCache) → (write_to_disk v d c).1.cache ≡ c.cache
unfolding write_to_disk
write-cache v no_parent c = refl
write-cache v no_temp_file c = refl
write-cache v no_rename c = refl
write-cache v no_version_file c = refl
write-cache v all_written c = refl
write-cache v (unchecked whole tag) c = refl

write-layers :
    (v : Text) (d : Disk) (c : RepoCache) → (write_to_disk v d c).1.cache.layers ≡ c.cache.layers
write-layers v d c = ap (λ r. r.layers) (write-cache v d c)

add-layers :
    (v : Text) (d : Disk) (item : LayersItem) (c : RepoCache)
    → find_matching_item item c.cache.layers ≡ none
    → (add_layer_item v d item c).1.cache.layers ≡ c.cache.layers ++ item ∷ []
unfolding add_layer_item add_unless
add-layers v d item c h = rw h (write-layers v d (set_layers (c.cache.layers ++ item ∷ []) c))

delete-layers :
    (v : Text) (d : Disk) (item val : LayersItem) (c : RepoCache)
    → find_matching_item item c.cache.layers ≡ some val
    → (delete_layer_item v d item c).1.cache.layers ≡ erase_matching item c.cache.layers
unfolding delete_layer_item delete_found
delete-layers v d item val c h =
    rw h (write-layers v d (set_layers (erase_matching item c.cache.layers) c))

add-found :
    (v : Text) (d : Disk) (item val : LayersItem) (c : RepoCache)
    → find_matching_item item c.cache.layers ≡ some val
    → (add_layer_item v d item c).1.cache.layers ≡ c.cache.layers
unfolding add_layer_item add_unless
add-found v d item val c h = rw h

delete-missing :
    (v : Text) (d : Disk) (item : LayersItem) (c : RepoCache)
    → find_matching_item item c.cache.layers ≡ none
    → (delete_layer_item v d item c).1.cache.layers ≡ c.cache.layers
unfolding delete_layer_item delete_found
delete-missing v d item c h = rw h

-- `addLayerItem` and `deleteLayerItem` keep any two layers of the cache apart: none matches another
-- before, and so none after, whether the call succeeds or fails.
pub layers-IsUnique :
    (v : Text) (d : Disk) (item : LayersItem) (c : RepoCache)
    → IsUnique c.cache.layers
    → IsUnique (add_layer_item v d item c).1.cache.layers
      × IsUnique (delete_layer_item v d item c).1.cache.layers
layers-IsUnique v d item c u = (
  added (find_matching_item item c.cache.layers) refl,
  deleted (find_matching_item item c.cache.layers) refl,
)
  where
    added :
        (o : Option LayersItem)
        → find_matching_item item c.cache.layers ≡ o
        → IsUnique (add_layer_item v d item c).1.cache.layers
    added none e =
        subst IsUnique (sym (add-layers v d item c e)) (IsUnique-snoc item c.cache.layers e u)
    added (some val) e = subst IsUnique (sym (add-found v d item val c e)) u

    deleted :
        (o : Option LayersItem)
        → find_matching_item item c.cache.layers ≡ o
        → IsUnique (delete_layer_item v d item c).1.cache.layers
    deleted none e = subst IsUnique (sym (delete-missing v d item c e)) u
    deleted (some val) e =
        subst IsUnique (sym (delete-layers v d item val c e)) (IsUnique-erase item c.cache.layers u)

-- `addLayerItem` of a layer that none of the cache matches, and then `deleteLayerItem` of it, leave
-- the layers as they were, whatever becomes of the two writes.
pub delete_layer_item-add_layer_item :
    (v : Text) (d e : Disk) (item : LayersItem) (c : RepoCache)
    → find_matching_item item c.cache.layers ≡ none
    → (delete_layer_item v e item (add_layer_item v d item c).1).1.cache.layers ≡ c.cache.layers
delete_layer_item-add_layer_item v d e item c h =
    let added = (add_layer_item v d item c).1 in
    let there = add-layers v d item c h in
    delete-layers v e item item added
      (ap (find_matching_item item) there ∙ find-snoc_self item c.cache.layers h)
    ∙ ap (erase_matching item) there
    ∙ erase-snoc item c.cache.layers h
