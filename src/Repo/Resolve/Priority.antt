-- ===== src/Repo/Resolve/Priority.antt =====
-- repo/ostree_repo.cpp: what `getRemoteReferenceByPriority` gives.
use linyaps.Prelude.{
  ◌≡◌, refl, Bool, true, false, List, [], ◌∷◌, Text, All, any, Memᴰ, Mem-All, All-map, any-Mem,
  subst, arith, Bool-cases, inl, inr, ◌⊎◌,
}
use linyaps.Prelude.Best.{best_from, best_from-IsBest}
use linyaps.Error.{Error, Result, ok, err, ◌>>=◌, app_install_not_found_from_remote}
use linyaps.Qt.{Qt}
use linyaps.Semver.{Semver, PrecedenceLaws}
use linyaps.Package.Architecture.{Architecture}
use linyaps.Package.Version.{lt}
use linyaps.Package.Version.Order.{IsOrdered, trichotomy, lt-not_trans}
use linyaps.Package.Info.{PackageInfoV2}
use linyaps.Package.Reference.{Reference}
use linyaps.Package.FuzzyReference.{FuzzyReference}
use linyaps.Repo.Config.{Repo, RepoConfigV2, get_highest_priority_repos}
use linyaps.Repo.Cache.{RepoCache}
use linyaps.Repo.Resolve.{
  ReferenceWithRepo, is_not_found, add_result, clear_each, clear_in, newest_result, above_largest,
  get_remote_reference_by_priority,
}

abbrev pub with_repo : Repo → Reference → ReferenceWithRepo
with_repo repo reference = record { repo = repo; reference = reference }

-- What a repository answers is among the results, or is that there is nothing.
abbrev pub IsKept : List ReferenceWithRepo → Repo → Result Reference → Type 0
IsKept results repo (ok reference) = Memᴰ (with_repo repo reference) results
IsKept results repo (err e) = is_not_found e ≡ true

IsKept-later :
    (x : ReferenceWithRepo) (results : List ReferenceWithRepo) (repo : Repo)
    (answer : Result Reference)
    → IsKept results repo answer
    → IsKept (x ∷ results) repo answer
IsKept-later x results repo (ok reference) h = Memᴰ.tail h
IsKept-later x results repo (err e) h = h

module _ (clear : Repo → Result Reference) where
  -- The result comes from one of the repositories.
  abbrev pub IsFrom : List Repo → ReferenceWithRepo → Type 0
  IsFrom repos x = Memᴰ x.repo repos × (clear x.repo ≡ ok x.reference)

  abbrev pub IsCollected : List Repo → Result (List ReferenceWithRepo) → Type 0
  IsCollected repos (ok results) =
      All (IsFrom repos) results × All (λ repo. IsKept results repo (clear repo)) repos
  IsCollected repos (err e) =
      (repo : Repo) × Memᴰ repo repos × (clear repo ≡ err e) × (is_not_found e ≡ false)

  IsCollected-skipped :
      (repo : Repo) (repos : List Repo) (rest : Result (List ReferenceWithRepo)) (e : Error)
      → clear repo ≡ err e
      → is_not_found e ≡ true
      → IsCollected repos rest
      → IsCollected (repo ∷ repos) rest
  IsCollected-skipped repo repos (ok results) e h k (from, kept) = (
    All-map (IsFrom repos) (IsFrom (repo ∷ repos)) (λ x f. (Memᴰ.tail f.0, f.1)) results from,
    (rw h k, kept),
  )
  IsCollected-skipped repo repos (err f) e h k (r, m, g, n) = (r, Memᴰ.tail m, g, n)

  add_result-IsCollected :
      (repo : Repo) (repos : List Repo) (rest : Result (List ReferenceWithRepo))
      (answer : Result Reference)
      → clear repo ≡ answer
      → IsCollected repos rest
      → IsCollected (repo ∷ repos) (add_result repo rest answer)
  unfolding add_result
  add_result-IsCollected repo repos (ok results) (ok reference) h (from, kept) = (
    (
      (Memᴰ.head refl, h),
      All-map (IsFrom repos) (IsFrom (repo ∷ repos)) (λ x f. (Memᴰ.tail f.0, f.1)) results from,
    ),
    (
      rw h (Memᴰ.head refl),
      All-map (λ r. IsKept results r (clear r))
          (λ r. IsKept (with_repo repo reference ∷ results) r (clear r))
          (λ r k. IsKept-later (with_repo repo reference) results r (clear r) k) repos kept,
    ),
  )
  add_result-IsCollected repo repos (err e) (ok reference) h (r, m, f, n) = (r, Memᴰ.tail m, f, n)
  add_result-IsCollected repo repos rest (err e) h c = elim (Bool-cases (is_not_found e)) [
    | inl k ↦ rw k (IsCollected-skipped repo repos rest e h k c)
    | inr k ↦ rw k (repo, Memᴰ.head refl, h, k)
  ]

  clear_each-IsCollected : (repos : List Repo) → IsCollected repos (clear_each clear repos)
  unfolding clear_each
  clear_each-IsCollected [] = (tt, tt)
  clear_each-IsCollected (repo ∷ repos) =
      add_result-IsCollected repo repos (clear_each clear repos) (clear repo) refl
        (clear_each-IsCollected repos)

module _ (qt : Qt) (sv : Semver) where
  abbrev pub IsOrderedAnswer : Result Reference → Type 0
  IsOrderedAnswer (ok reference) = IsOrdered reference.version
  IsOrderedAnswer (err e) = Unit

  abbrev pub IsOrderedResult : ReferenceWithRepo → Type 0
  IsOrderedResult x = IsOrdered x.reference.version

  abbrev pub IsNotAbove : ReferenceWithRepo → Result Reference → Type 0
  IsNotAbove x (ok reference) = lt qt sv x.reference.version reference.version ≡ false
  IsNotAbove x (err e) = is_not_found e ≡ true

  abbrev pub IsMissing : Result Reference → Type 0
  IsMissing (ok reference) = ⊥
  IsMissing (err e) = is_not_found e ≡ true

  -- What comes of asking each repository: the answer of one of them, than which no other answer is
  -- newer; nothing, as all of them have nothing; or the failure of one of them.
  abbrev pub IsNewestAnswer :
      (Repo → Result Reference) → List Repo → Result ReferenceWithRepo → Type 0
  IsNewestAnswer clear repos (ok x) =
      IsFrom clear repos x × All (λ repo. IsNotAbove x (clear repo)) repos
  IsNewestAnswer clear repos (err e) =
      (e ≡ app_install_not_found_from_remote) × All (λ repo. IsMissing (clear repo)) repos
      ⊎ ((repo : Repo) × Memᴰ repo repos × (clear repo ≡ err e) × (is_not_found e ≡ false))

  IsMissing-kept :
      (repo : Repo) (answer : Result Reference) → IsKept [] repo answer → IsMissing answer
  IsMissing-kept repo (ok reference) h = elim h [ ]
  IsMissing-kept repo (err e) h = h

  IsNotAbove-kept :
      (x : ReferenceWithRepo) (results : List ReferenceWithRepo) (repo : Repo)
      (answer : Result Reference)
      → any (λ y. above_largest qt sv y x) results ≡ false
      → IsKept results repo answer
      → IsNotAbove x answer
  IsNotAbove-kept x results repo (ok reference) h k =
      any-Mem (λ y. above_largest qt sv y x) (with_repo repo reference) results h k
  IsNotAbove-kept x results repo (err e) h k = k

  module _ (laws : PrecedenceLaws sv) where
    above_largest-asym :
        (a b : ReferenceWithRepo)
        → IsOrderedResult a
        → IsOrderedResult b
        → above_largest qt sv a b ≡ true
        → above_largest qt sv b a ≡ false
    above_largest-asym a b h k e =
        ground (arith, trichotomy qt sv laws b.reference.version a.reference.version k h)

    above_largest-not_trans :
        (a b c : ReferenceWithRepo)
        → IsOrderedResult a
        → IsOrderedResult b
        → IsOrderedResult c
        → above_largest qt sv b a ≡ false
        → above_largest qt sv c b ≡ false
        → above_largest qt sv c a ≡ false
    above_largest-not_trans a b c h k l e f =
        lt-not_trans qt sv laws c.reference.version b.reference.version a.reference.version l k h f
          e

    module _ (clear : Repo → Result Reference) where
      results-ordered :
          (repos : List Repo) (x : ReferenceWithRepo)
          → All (λ repo. IsOrderedAnswer (clear repo)) repos
          → IsFrom clear repos x
          → IsOrderedResult x
      results-ordered repos x hs (m, e) =
          subst IsOrderedAnswer e (Mem-All (λ repo. IsOrderedAnswer (clear repo)) x.repo repos m hs)

      newest_result-IsNewestAnswer :
          (repos : List Repo) (results : List ReferenceWithRepo)
          → All (λ repo. IsOrderedAnswer (clear repo)) repos
          → IsCollected clear repos (ok results)
          → IsNewestAnswer clear repos (newest_result qt sv results)
      unfolding newest_result
      newest_result-IsNewestAnswer repos [] hs (from, kept) = inl (
        refl,
        All-map (λ repo. IsKept [] repo (clear repo)) (λ repo. IsMissing (clear repo))
            (λ repo k. IsMissing-kept repo (clear repo) k) repos kept,
      )
      newest_result-IsNewestAnswer repos (x ∷ xs) hs (from, kept) =
          let ordered =
            All-map (IsFrom clear repos) IsOrderedResult (λ y f. results-ordered repos y hs f)
              (x ∷ xs) from in
          let best = best_from (above_largest qt sv) x xs in
          let (member, beaten) =
            best_from-IsBest (above_largest qt sv) IsOrderedResult above_largest-asym
              above_largest-not_trans x xs ordered.0 ordered.1 in
          (
            Mem-All (IsFrom clear repos) best (x ∷ xs) member from,
            All-map (λ repo. IsKept (x ∷ xs) repo (clear repo))
                (λ repo. IsNotAbove best (clear repo))
                (λ repo k. IsNotAbove-kept best (x ∷ xs) repo (clear repo) beaten k) repos kept,
          )

      collected-IsNewestAnswer :
          (repos : List Repo) (results : Result (List ReferenceWithRepo))
          → All (λ repo. IsOrderedAnswer (clear repo)) repos
          → IsCollected clear repos results
          → IsNewestAnswer clear repos (results >>= λ rs. newest_result qt sv rs)
      collected-IsNewestAnswer repos (ok results) hs c =
          newest_result-IsNewestAnswer repos results hs c
      collected-IsNewestAnswer repos (err e) hs c = inr c

    -- Where the versions that the repositories of the highest priority answer with are ones that
    -- `<` orders: `getRemoteReferenceByPriority`, not told to ask the first one only, gives the
    -- answer of one of these repositories, than which the answer of no other is newer, where each
    -- of the others has an answer or has answered that there is nothing; or it fails as not found,
    -- where all of them have answered so; or with another failure of one of them.
    pub get_remote_reference_by_priority-IsNewestAnswer :
        (list : FuzzyReference → Repo → Result (List PackageInfoV2)) (host : Result Architecture)
        (c : RepoCache) (cfg : RepoConfigV2) (fuzzy : FuzzyReference) (semantic : Bool)
        (asked : Text)
        → All
            (λ repo. IsOrderedAnswer (clear_in qt sv list host c cfg fuzzy semantic asked repo))
            (get_highest_priority_repos cfg)
        → IsNewestAnswer
            (clear_in qt sv list host c cfg fuzzy semantic asked)
            (get_highest_priority_repos cfg)
            (get_remote_reference_by_priority qt sv list host c cfg fuzzy false semantic asked)
    unfolding get_remote_reference_by_priority
    get_remote_reference_by_priority-IsNewestAnswer list host c cfg fuzzy semantic asked hs =
        let clear = clear_in qt sv list host c cfg fuzzy semantic asked in
        let repos = get_highest_priority_repos cfg in
        collected-IsNewestAnswer clear repos (clear_each clear repos) hs
          (clear_each-IsCollected clear repos)
