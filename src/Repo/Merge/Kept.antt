-- ===== src/Repo/Merge/Kept.antt =====
-- repo/ostree_repo.cpp: after `mergeModules` each merged item has its directory.
use linyaps.Prelude.{
  ◌≡◌, refl, sym, ap, ◌∙◌, Bool, true, false, not, ◌||◌, some, List, [], ◌∷◌, ◌++◌, Text, text_eq,
  text_eq→eq, text_eq_refl, All, All-map, keep_if, keep_if-All, Memᴰ, arith, Bool-cases,
  Option-cases, is_empty, inl, inr,
}
use linyaps.Error.{Result, ok, err}
use linyaps.Repo.Cache.{
  LayersItem, MergedItem, RepoCache, Disk, no_parent, no_temp_file, no_rename, no_version_file,
  all_written, unchecked, update_merged_items, query_existing_layer_item,
}
use linyaps.Prelude.Sort.{sort}
use linyaps.Repo.Modules.{includes, module_before}
use linyaps.Repo.Cache.Layers.{text_eq_comm}
use linyaps.Repo.Store.Remove.{any-kept}
use linyaps.Repo.Merge.{
  MergedDirs, MergeSystem, Making, made, not_made, not_renamed, items_or_none, make_dir,
  keep_or_make, merge_sorted, merge_group, merge_groups, is_merged, clean_dirs, clean_up,
  save_merged, merge_modules, unchanged_item, merged_of, and_then, group_layers, binary_commit,
}

-- Each item has its directory.
abbrev pub HasDirs : List MergedItem → List Text → Type 0
HasDirs items dirs = All (λ (item : MergedItem). includes dirs item.id ≡ true) items

abbrev IsKept : List MergedItem → Result (List MergedItem) × List Text → Type 0
IsKept old (ok items, dirs) = HasDirs items dirs × HasDirs old dirs
IsKept old (err e, dirs) = Unit

HasDirs-snoc :
    (items : List MergedItem) (item : MergedItem) (dirs : List Text)
    → HasDirs items dirs
    → includes dirs item.id ≡ true
    → HasDirs (items ++ item ∷ []) dirs
HasDirs-snoc [] item dirs hs h = (h, tt)
HasDirs-snoc (x ∷ xs) item dirs hs h = (hs.0, HasDirs-snoc xs item dirs hs.1 h)

includes-made :
    (id name : Text) (dirs : List Text)
    → includes dirs name ≡ true
    → includes (id ∷ keep_if (λ dir. not (text_eq id dir)) dirs) name ≡ true
includes-made id name dirs h = elim (Bool-cases (text_eq name id)) [
  | inl e ↦ rw e refl
  | inr e ↦ let kept = any-kept id name dirs (text_eq_comm id name ∙ e) h in rw e kept
]

HasDirs-made :
    (id : Text) (items : List MergedItem) (dirs : List Text)
    → HasDirs items dirs
    → HasDirs items (id ∷ keep_if (λ dir. not (text_eq id dir)) dirs)
HasDirs-made id items dirs hs =
    All-map (λ item. includes dirs item.id ≡ true)
      (λ item. includes (id ∷ keep_if (λ dir. not (text_eq id dir)) dirs) item.id ≡ true)
      (λ item h. includes-made id item.id dirs h) items hs

make_dir-IsKept :
    (item : MergedItem) (old items : List MergedItem) (dirs : List Text) (making : Making)
    → HasDirs items dirs
    → HasDirs old dirs
    → IsKept old (make_dir item items dirs making)
unfolding make_dir
make_dir-IsKept item old items dirs not_made h k = tt
make_dir-IsKept item old items dirs not_renamed h k = tt
make_dir-IsKept item old items dirs made h k = (
  HasDirs-snoc items item (item.id ∷ keep_if (λ dir. not (text_eq item.id dir)) dirs)
      (HasDirs-made item.id items dirs h) (rw (text_eq_refl item.id) refl),
  HasDirs-made item.id old dirs k,
)

pub unchanged-first :
    (id : Text) (commits : List Text) (x : MergedItem) (xs : List MergedItem) (merge : MergedItem)
    → text_eq x.id id ≡ true
    → unchanged_item id commits (x ∷ xs) ≡ some merge
    → x ≡ merge
unfolding unchanged_item
unchanged-first id commits x xs merge e h = ground (arith, e, h)

pub unchanged-later :
    (id : Text) (commits : List Text) (x : MergedItem) (xs : List MergedItem)
    → text_eq x.id id ≡ false
    → unchanged_item id commits (x ∷ xs) ≡ unchanged_item id commits xs
unfolding unchanged_item
unchanged-later id commits x xs e = rw e refl

unchanged_item-includes :
    (id : Text) (commits : List Text) (old : List MergedItem) (merge : MergedItem)
    (dirs : List Text)
    → HasDirs old dirs
    → unchanged_item id commits old ≡ some merge
    → includes dirs merge.id ≡ true
unfolding unchanged_item
unchanged_item-includes id commits [] merge dirs hs h = cc
unchanged_item-includes id commits (x ∷ xs) merge dirs hs h = elim (Bool-cases (text_eq x.id id)) [
  | inl e ↦
      let same = unchanged-first id commits x xs merge e h in
      ap (λ (m : MergedItem). includes dirs m.id) (sym same) ∙ hs.0
  | inr e ↦
      unchanged_item-includes id commits xs merge dirs hs.1
        (sym (unchanged-later id commits x xs e) ∙ h)
]

keep_or_make-IsKept :
    (system : MergeSystem) (item : MergedItem) (old items : List MergedItem) (dirs : List Text)
    (commits : List Text)
    → HasDirs items dirs
    → HasDirs old dirs
    → IsKept old (keep_or_make system item items dirs (unchanged_item item.id commits old))
unfolding keep_or_make
keep_or_make-IsKept system item old items dirs commits h k =
    elim (Option-cases (unchanged_item item.id commits old)) [
      | inl e ↦ rw e (make_dir-IsKept item old items dirs (system.making item.id item.commits) h k)
      | inr (merge, e) ↦
          let there = unchanged_item-includes item.id commits old merge dirs k e in
          rw e (HasDirs-snoc items merge dirs h there, k)
    ]

merge_sorted-IsKept :
    (system : MergeSystem) (old : List MergedItem) (name : Text) (layers : List LayersItem)
    (items : List MergedItem) (dirs : List Text)
    → HasDirs items dirs
    → HasDirs old dirs
    → IsKept old (merge_sorted system old name layers items dirs)
unfolding merge_sorted
merge_sorted-IsKept system old name layers items dirs h k =
    let item = merged_of system name layers in
    elim (Bool-cases (is_empty (binary_commit [] layers))) [
      | inl e ↦ rw e (h, k)
      | inr e ↦ rw e (keep_or_make-IsKept system item old items dirs item.commits h k)
    ]

merge_group-IsKept :
    (system : MergeSystem) (old : List MergedItem) (name : Text) (layers : List LayersItem)
    (items : List MergedItem) (dirs : List Text)
    → HasDirs items dirs
    → HasDirs old dirs
    → IsKept old (merge_group system old name layers items dirs)
unfolding merge_group
merge_group-IsKept system old name [] items dirs h k =
    merge_sorted-IsKept system old name [] items dirs h k
merge_group-IsKept system old name (layer ∷ []) items dirs h k = (h, k)
merge_group-IsKept system old name (layer ∷ other ∷ layers) items dirs h k =
    merge_sorted-IsKept system old name (sort module_before (layer ∷ other ∷ layers)) items dirs h k

and_then-IsKept :
    (old : List MergedItem)
    (next : List MergedItem → List Text → Result (List MergedItem) × List Text)
    (m : Result (List MergedItem) × List Text)
    → IsKept old m
    → ((items : List MergedItem) (dirs : List Text)
        → HasDirs items dirs
        → HasDirs old dirs
        → IsKept old (next items dirs))
    → IsKept old (and_then next m)
and_then-IsKept old next (ok items, dirs) (h, k) step = step items dirs h k
and_then-IsKept old next (err e, dirs) h step = tt

merge_groups-IsKept :
    (system : MergeSystem) (old : List MergedItem) (groups : List (Text × List LayersItem))
    (items : List MergedItem) (dirs : List Text)
    → HasDirs items dirs
    → HasDirs old dirs
    → IsKept old (merge_groups system old groups items dirs)
unfolding merge_groups
merge_groups-IsKept system old [] items dirs h k = (h, k)
merge_groups-IsKept system old ((name, layers) ∷ groups) items dirs h k =
    and_then-IsKept old (merge_groups system old groups)
      (merge_group system old name layers items dirs)
      (merge_group-IsKept system old name layers items dirs h k)
      (λ items dirs h k. merge_groups-IsKept system old groups items dirs h k)

includes-kept :
    (p : Text → Bool) (name : Text) (dirs : List Text)
    → p name ≡ true
    → includes dirs name ≡ true
    → includes (keep_if p dirs) name ≡ true
includes-kept p name [] h k = k
includes-kept p name (d ∷ ds) h k = elim (Bool-cases (text_eq name d)) [
  | inl e ↦ let same = sym (ap p (text_eq→eq name d e)) ∙ h in rw same (rw e refl)
  | inr e ↦ elim (Bool-cases (p d)) [
    | inl f ↦ rw f (rw e (includes-kept p name ds h (ground (arith, e, k))))
    | inr f ↦ rw f (includes-kept p name ds h (ground (arith, e, k)))
  ]
]

HasDirs-clean :
    (system : MergeSystem) (items kept : List MergedItem) (dirs : List Text)
    → All (λ (item : MergedItem). is_merged items item.id ≡ true) kept
    → HasDirs kept dirs
    → HasDirs kept (clean_dirs system items dirs)
unfolding clean_dirs
HasDirs-clean system items [] dirs own hs = tt
HasDirs-clean system items (item ∷ kept) dirs own hs = (
  includes-kept (λ dir. is_merged items dir || not (system.removes dir)) item.id dirs
      (rw own.0 refl) hs.0,
  HasDirs-clean system items kept dirs own.1 hs.1,
)

-- Each merged item has its directory; and a directory that has no item is one that could not be
-- removed.
abbrev pub IsMerged : MergeSystem → Result (Unit {0}) × MergedDirs → Type 0
IsMerged system (err e, s) = Unit
IsMerged system (ok done, s) =
    (items : List MergedItem) × (s.cache.cache.merged ≡ some items)
    × HasDirs items s.dirs
    × All (λ dir. (is_merged items dir || not (system.removes dir)) ≡ true) s.dirs

or-true : (p q : Bool) → q ≡ true → (p || q) ≡ true
or-true p q h = ground arith

own-IsMerged :
    (items : List MergedItem) → All (λ (item : MergedItem). is_merged items item.id ≡ true) items
own-IsMerged [] = tt
own-IsMerged (x ∷ xs) = (
  rw (text_eq_refl x.id) refl,
  All-map (λ (item : MergedItem). is_merged xs item.id ≡ true)
      (λ (item : MergedItem). is_merged (x ∷ xs) item.id ≡ true)
      (λ (item : MergedItem) h. or-true (text_eq item.id x.id) (is_merged xs item.id) h) xs
      (own-IsMerged xs),
)

clean_up-IsMerged :
    (system : MergeSystem) (items : List MergedItem) (dirs : List Text) (c : RepoCache)
    → c.cache.merged ≡ some items
    → HasDirs items dirs
    → IsMerged system (clean_up system items dirs (ok tt, c))
unfolding clean_up clean_dirs
clean_up-IsMerged system items dirs c h hs =
    let IsLeft : Text → Type 0 = λ dir. (is_merged items dir || not (system.removes dir)) ≡ true in
    let left =
      All-map (λ dir. Memᴰ dir dirs × IsLeft dir) IsLeft (λ dir k. k.1)
        (keep_if (λ dir. is_merged items dir || not (system.removes dir)) dirs)
        (keep_if-All (λ dir. is_merged items dir || not (system.removes dir)) dirs) in
    elim (Bool-cases system.lists) [
      | inl e ↦ rw e (items, h, HasDirs-clean system items items dirs (own-IsMerged items) hs, left)
      | inr e ↦ rw e tt
    ]

save_merged-IsMerged :
    (v : Text) (disk : Disk) (system : MergeSystem) (c : RepoCache) (old : List MergedItem)
    (m : Result (List MergedItem) × List Text)
    → IsKept old m
    → IsMerged system (save_merged v disk system c m)
unfolding save_merged update_merged_items linyaps.Repo.Cache.write_to_disk
save_merged-IsMerged v disk system c old (err e, dirs) h = tt
save_merged-IsMerged v no_parent system c old (ok items, dirs) h = unfold clean_up in tt
save_merged-IsMerged v no_temp_file system c old (ok items, dirs) h = unfold clean_up in tt
save_merged-IsMerged v no_rename system c old (ok items, dirs) h = unfold clean_up in tt
save_merged-IsMerged v no_version_file system c old (ok items, dirs) h =
    clean_up-IsMerged system items dirs (update_merged_items v no_version_file items c).1 refl h.0
save_merged-IsMerged v all_written system c old (ok items, dirs) h =
    clean_up-IsMerged system items dirs (update_merged_items v all_written items c).1 refl h.0
save_merged-IsMerged v (unchecked whole tag) system c old (ok items, dirs) h =
    clean_up-IsMerged system items dirs (update_merged_items v (unchecked whole tag) items c).1 refl
      h.0

-- Where each merged item of the cache has its directory: if `mergeModules` succeeds, so has each of
-- the items that the cache has then, and each directory below `merged` is that of an item, or one
-- that could not be removed.
pub merge_modules-IsMerged :
    (v : Text) (disk : Disk) (system : MergeSystem) (s : MergedDirs)
    → HasDirs (items_or_none s.cache.cache.merged) s.dirs
    → IsMerged system (merge_modules v disk system s)
unfolding merge_modules
merge_modules-IsMerged v disk system s h =
    let old = items_or_none s.cache.cache.merged in
    let groups = group_layers (query_existing_layer_item s.cache) [] in
    save_merged-IsMerged v disk system s.cache old (merge_groups system old groups [] s.dirs)
      (merge_groups-IsKept system old groups [] s.dirs tt h)
