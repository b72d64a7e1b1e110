-- ===== src/Repo/Merge/Covered.antt =====
-- repo/ostree_repo.cpp: after `mergeModules` the modules of each package are merged.
use linyaps.Prelude.{◌≡◌, Bool, true, ◌||◌, List, [], Text, ltb, length, All, is_empty}
use linyaps.Prelude.Sort.{sort}
use linyaps.Error.{Result, ok, err}
use linyaps.Repo.Cache.{LayersItem, MergedItem}
use linyaps.Repo.Modules.{module_before}
use linyaps.Repo.Merge.{
  MergedDirs, MergeSystem, items_or_none, is_merged, binary_commit, commits_of,
}

-- A package of one module, or without `binary` and `runtime`, is not merged.
abbrev pub is_skipped : List LayersItem → Bool
is_skipped layers = ltb (length layers) 2 || is_empty (binary_commit [] (sort module_before layers))

-- There is an item for the commits of the package's modules, in the order of the modules.
abbrev pub is_covered : MergeSystem → List MergedItem → List LayersItem → Bool
is_covered system items layers =
    is_skipped layers || is_merged items (system.hash (commits_of (sort module_before layers)))

abbrev Grows : List MergedItem → List MergedItem → Type 0
Grows items later = (dir : Text) → is_merged items dir ≡ true → is_merged later dir ≡ true

-- What a step leaves of the items: those before it, and one with this identifier, unless skipped.
abbrev Adds : List MergedItem → Bool → Text → Result (List MergedItem) × List Text → Type 0
Adds items skipped id (err e, dirs) = Unit
Adds items skipped id (ok later, dirs) =
    Grows items later × ((skipped || is_merged later id) ≡ true)

-- The same of a package's modules.
abbrev Covers :
    MergeSystem → List MergedItem → List LayersItem → Result (List MergedItem) × List Text → Type 0
Covers system items layers (err e, dirs) = Unit
Covers system items layers (ok later, dirs) =
    Grows items later × (is_covered system later layers ≡ true)

-- The same of all packages.
abbrev CoversAll :
    MergeSystem
    → List MergedItem
    → List (Text × List LayersItem)
    → Result (List MergedItem) × List Text
    → Type 0
CoversAll system items groups (err e, dirs) = Unit
CoversAll system items groups (ok later, dirs) =
    Grows items later
    × All (λ (group : Text × List LayersItem). is_covered system later group.1 ≡ true) groups

-- The cache after a success has an item for each of these packages.
abbrev pub IsComplete :
    MergeSystem → List (Text × List LayersItem) → Result (Unit {0}) × MergedDirs → Type 0
IsComplete system groups (err e, s) = Unit
IsComplete system groups (ok done, s) =
    All
      (λ (group : Text × List LayersItem).
        is_covered system (items_or_none s.cache.cache.merged) group.1 ≡ true)
      groups
