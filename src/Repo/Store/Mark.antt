-- ===== src/Repo/Store/Mark.antt =====
-- repo/ostree_repo.cpp: `markDeleted` marks one layer, or nothing.
use linyaps.Prelude.{
  ◌≡◌, refl, sym, ap, ◌∙◌, Bool, true, false, Option, none, some, List, [], ◌∷◌, ◌++◌, All, Text,
  arith, Bool-cases, Option-cases, inl, inr, if◌then◌else◌,
}
use linyaps.Error.{Result, ok, err}
use linyaps.Qt.{Qt}
use linyaps.Semver.{Semver}
use linyaps.Package.Reference.{Reference}
use linyaps.Repo.Config.{RepoConfigV2}
use linyaps.Repo.Cache.{
  LayersItem, RepoCache, Disk, no_parent, no_temp_file, no_rename, no_version_file, all_written,
  unchecked, is_whole, Method, set_layers, find_matching_item, matches, write_to_disk,
}
use linyaps.Repo.Store.{
  set_deleted, write_deleted, mark_found, mark_item, get_layer_item, mark_deleted,
}

matches-deleted :
    (item x : LayersItem) (deleted : Option Bool)
    → matches item (record x { deleted = deleted }) ≡ matches item x
unfolding matches
matches-deleted item x deleted = refl

set_deleted-hit :
    (item x : LayersItem) (deleted : Option Bool) (xs : List LayersItem)
    → matches item x ≡ true
    → set_deleted item deleted (x ∷ xs) ≡ record x { deleted = deleted } ∷ xs
unfolding set_deleted
set_deleted-hit item x deleted xs e = rw e refl

set_deleted-miss :
    (item x : LayersItem) (deleted : Option Bool) (xs : List LayersItem)
    → matches item x ≡ false
    → set_deleted item deleted (x ∷ xs) ≡ x ∷ set_deleted item deleted xs
unfolding set_deleted
set_deleted-miss item x deleted xs e = rw e refl

find-hit :
    (item x it : LayersItem) (xs : List LayersItem)
    → matches item x ≡ true
    → find_matching_item item (x ∷ xs) ≡ some it
    → x ≡ it
unfolding find_matching_item
find-hit item x it xs e h = ground (arith, e, h)

find-miss :
    (item x : LayersItem) (xs : List LayersItem)
    → matches item x ≡ false
    → find_matching_item item (x ∷ xs) ≡ find_matching_item item xs
unfolding find_matching_item
find-miss item x xs e = rw e refl

set_deleted-twice :
    (item : LayersItem) (first second : Option Bool) (layers : List LayersItem)
    → set_deleted item second (set_deleted item first layers) ≡ set_deleted item second layers
unfolding set_deleted
set_deleted-twice item first second [] = refl
set_deleted-twice item first second (x ∷ xs) = elim (Bool-cases (matches item x)) [
  | inl e ↦
      ap (set_deleted item second) (set_deleted-hit item x first xs e)
      ∙ set_deleted-hit item (record x { deleted = first }) second xs
          (matches-deleted item x first ∙ e)
      ∙ sym (set_deleted-hit item x second xs e)
  | inr e ↦
      ap (set_deleted item second) (set_deleted-miss item x first xs e)
      ∙ set_deleted-miss item x second (set_deleted item first xs) e
      ∙ ap (λ ys. x ∷ ys) (set_deleted-twice item first second xs)
      ∙ sym (set_deleted-miss item x second xs e)
]

set_deleted-found :
    (item it : LayersItem) (layers : List LayersItem)
    → find_matching_item item layers ≡ some it
    → set_deleted item it.deleted layers ≡ layers
unfolding find_matching_item set_deleted
set_deleted-found item it [] h = cc
set_deleted-found item it (x ∷ xs) h = elim (Bool-cases (matches item x)) [
  | inl e ↦
      set_deleted-hit item x it.deleted xs e
      ∙ ap (λ (y : LayersItem). record x { deleted = y.deleted } ∷ xs)
          (sym (find-hit item x it xs e h))
  | inr e ↦
      set_deleted-miss item x it.deleted xs e
      ∙ ap (λ ys. x ∷ ys) (set_deleted-found item it xs (sym (find-miss item x xs e) ∙ h))
]

-- The mark that `markDeleted` leaves.
abbrev pub mark_of : Bool → Option Bool
mark_of deleted = if deleted then some true else none

-- One layer has the mark, the first one that has the item's commit, repository, reference and module;
-- all else is as before.
abbrev pub IsMarkedIn : LayersItem → Option Bool → List LayersItem → List LayersItem → Type 0
IsMarkedIn item mark before after =
    (front : List LayersItem) × (it : LayersItem) × (back : List LayersItem) × (before
      ≡ front ++ it ∷ back)
    × (after ≡ front ++ record it { deleted = mark } ∷ back)
    × (matches item it ≡ true)
    × All (λ other. matches item other ≡ false) front

set_deleted-IsMarkedIn :
    (item it : LayersItem) (mark : Option Bool) (layers : List LayersItem)
    → find_matching_item item layers ≡ some it
    → IsMarkedIn item mark layers (set_deleted item mark layers)
unfolding find_matching_item
set_deleted-IsMarkedIn item it mark [] h = cc
set_deleted-IsMarkedIn item it mark (x ∷ xs) h = elim (Bool-cases (matches item x)) [
  | inl e ↦ ([], x, xs, refl, set_deleted-hit item x mark xs e, e, tt)
  | inr e ↦
      let (front, found, back, p, q, hit, misses) =
        set_deleted-IsMarkedIn item it mark xs (sym (find-miss item x xs e) ∙ h) in
      (
        x ∷ front,
        found,
        back,
        ap (λ ys. x ∷ ys) p,
        set_deleted-miss item x mark xs e ∙ ap (λ ys. x ∷ ys) q,
        hit,
        (e, misses),
      )
]

-- Nothing is changed by a failure; and else the layer is marked, in memory and in the file.
abbrev pub IsMarked : Disk → RepoCache → LayersItem → Bool → Method (Unit {0}) → Type 0
IsMarked disk c item deleted (err e, after) = after ≡ c
IsMarked disk c item deleted (ok done, after) =
    IsMarkedIn item (mark_of deleted) c.cache.layers after.cache.layers
    × (after.file ≡ (if is_whole disk then some after.cache else none))

mark_found-IsMarked :
    (v : Text) (disk : Disk) (item it : LayersItem) (deleted : Bool) (c : RepoCache)
    → find_matching_item item c.cache.layers ≡ some it
    → IsMarked disk c item deleted (mark_found v disk item deleted c (some it))
unfolding mark_found write_to_disk linyaps.Repo.Store.finish_mark
    linyaps.Utils.Transaction.add_roll_back linyaps.Utils.Transaction.run_back
    linyaps.Utils.Transaction.destroy linyaps.Utils.Transaction.commit
mark_found-IsMarked v disk item it deleted c h =
    let restored =
      ap (λ layers. set_layers layers c)
        (set_deleted-twice item (mark_of deleted) it.deleted c.cache.layers
          ∙ set_deleted-found item it c.cache.layers h) in
    let marked = set_deleted-IsMarkedIn item it (mark_of deleted) c.cache.layers h in
    elim disk as (λ d. IsMarked d c item deleted (mark_found v d item deleted c (some it))) [
      | no_parent ↦ restored
      | no_temp_file ↦ restored
      | no_rename ↦ restored
      | no_version_file ↦ (marked, refl)
      | all_written ↦ (marked, refl)
      | unchecked whole tag ↦ (marked, refl)
    ]

mark_item-IsMarked :
    (v : Text) (disk : Disk) (deleted : Bool) (c : RepoCache) (item : LayersItem)
    → IsMarked disk c item deleted (mark_item v disk deleted c (ok item))
unfolding mark_item
mark_item-IsMarked v disk deleted c item =
    elim (Option-cases (find_matching_item item c.cache.layers)) [
      | inl e ↦ rw e (unfold mark_found in refl)
      | inr (it, e) ↦ rw e (mark_found-IsMarked v disk item it deleted c e)
    ]

abbrev pub IsMarkedOf : Disk → RepoCache → Result LayersItem → Bool → Method (Unit {0}) → Type 0
IsMarkedOf disk c (err e) deleted m = (m.0 ≡ err e) × (m.1 ≡ c)
IsMarkedOf disk c (ok item) deleted m = IsMarked disk c item deleted m

found-IsMarkedOf :
    (v : Text) (disk : Disk) (deleted : Bool) (c : RepoCache) (found : Result LayersItem)
    → IsMarkedOf disk c found deleted (mark_item v disk deleted c found)
found-IsMarkedOf v disk deleted c (err e) = unfold mark_item in (refl, refl)
found-IsMarkedOf v disk deleted c (ok item) = mark_item-IsMarked v disk deleted c item

module _ (qt : Qt) (sv : Semver) where
  -- `markDeleted` fails where `getLayerItem` does; where it fails, then or later, the object is as
  -- it was, the cache in memory and the file; and where it succeeds, one layer of the cache is
  -- marked, the first one with the commit, the repository, the reference and the module of the layer
  -- found, and
  -- all else in the list of layers is as before, and the file holds the cache in memory, or does not
  -- load if it was cut off.
  pub mark_deleted-IsMarked :
      (v : Text) (disk : Disk) (cfg : RepoConfigV2) (ref : Reference) (deleted : Bool)
      (asked : Text) (sub_ref : Option Text) (c : RepoCache)
      → IsMarkedOf disk c
          (get_layer_item qt sv c cfg ref asked sub_ref)
          deleted
          (mark_deleted qt sv v disk cfg ref deleted asked sub_ref c)
  unfolding mark_deleted
  mark_deleted-IsMarked v disk cfg ref deleted asked sub_ref c =
      found-IsMarkedOf v disk deleted c (get_layer_item qt sv c cfg ref asked sub_ref)
