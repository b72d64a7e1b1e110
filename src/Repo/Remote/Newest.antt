-- ===== src/Repo/Remote/Newest.antt =====
-- repo/ostree_repo.cpp: which reference `clearReference` takes from a remote repository.
use linyaps.Prelude.{
  ◌≡◌, refl, sym, ◌∙◌, Bool, true, false, not, ◌&&◌, is_some, Option, none, some, List, [], ◌∷◌,
  Text, All, any, Memᴰ, arith, Bool-cases, Option-cases, if◌then◌else◌, inl, inr,
}
use linyaps.Prelude.Best.{best_from, IsBest, best_from-IsBest}
use linyaps.Error.{Result, ok, err, or_fail, app_not_found_from_remote}
use linyaps.Qt.{Qt}
use linyaps.Semver.{Semver, PrecedenceLaws}
use linyaps.Package.Version.{Version, gt, eq}
use linyaps.Package.Version.Order.{IsOrdered, trichotomy, lt-not_trans}
use linyaps.Package.Info.{PackageInfoV2}
use linyaps.Package.Reference.{Reference}
use linyaps.Package.FuzzyReference.{FuzzyReference}
use linyaps.Repo.Config.{Repo, RepoConfigV2, get_default_repo}
use linyaps.Repo.Remote.{match_reference, later, choose, filter_list, alias_repo, clear_remote}

-- The reference's version is one that `<` orders.
abbrev pub IsOrderedReference : Reference → Type 0
IsOrderedReference r = IsOrdered r.version

module _ (qt : Qt) (sv : Semver) where
  with_matched : Option Reference → List Reference → List Reference
  with_matched none rest = rest
  with_matched (some r) rest = r ∷ rest

  -- The references of the records that match, in the records' order.
  unfoldable pub candidates : FuzzyReference → Text → List PackageInfoV2 → List Reference
  unfolding with_matched
  candidates fuzzy asked [] = []
  candidates fuzzy asked (item ∷ items) =
      with_matched (match_reference qt sv item fuzzy asked) (candidates fuzzy asked items)

  abbrev pub above : Reference → Reference → Bool
  above a b = gt qt sv a.version b.version

  abbrev pub has_version : Version → Reference → Bool
  has_version wanted r = eq qt sv r.version wanted

  -- The newest of the references, the first of them if it is the newest of several; or the first
  -- of the wanted version.
  newest : Option Reference → List Reference → Option Reference
  newest none [] = none
  newest none (r ∷ rs) = some (best_from above r rs)
  newest (some best) rs = some (best_from above best rs)

  first_of : Version → List Reference → Option Reference
  first_of wanted [] = none
  first_of wanted (r ∷ rs) =
      let rest = first_of wanted rs in if has_version wanted r then some r else rest

  newest-later :
      (best : Option Reference) (r : Reference) (rs : List Reference)
      → newest best (r ∷ rs) ≡ newest (some (later qt sv best r)) rs
  unfolding newest later
  newest-later none r rs = refl
  newest-later (some best) r rs = refl

  choose-newest_after :
      (fuzzy : FuzzyReference) (asked : Text) (wanted : Option Version) (semantic : Bool)
      (best : Option Reference) (item : PackageInfoV2) (items : List PackageInfoV2)
      → (not semantic && is_some wanted) ≡ false
      → ((best : Option Reference)
          → choose qt sv fuzzy asked wanted semantic best items
            ≡ newest best (candidates fuzzy asked items))
      → choose qt sv fuzzy asked wanted semantic best (item ∷ items)
        ≡ newest best (candidates fuzzy asked (item ∷ items))
  unfolding choose candidates
  choose-newest_after fuzzy asked none semantic best item items h rest =
      elim (Option-cases (match_reference qt sv item fuzzy asked)) [
        | inl e ↦ rw e (rest best)
        | inr (r, e) ↦ rw e (
            rest (some (later qt sv best r))
            ∙ sym (newest-later best r (candidates fuzzy asked items)))
      ]
  choose-newest_after fuzzy asked (some wanted) true best item items h rest =
      elim (Option-cases (match_reference qt sv item fuzzy asked)) [
        | inl e ↦ rw e (rest best)
        | inr (r, e) ↦ rw e (
            rest (some (later qt sv best r))
            ∙ sym (newest-later best r (candidates fuzzy asked items)))
      ]
  choose-newest_after fuzzy asked (some wanted) false best item items h rest = cc

  -- With no wanted version, or any that it matches, the newest is kept.
  choose-newest :
      (fuzzy : FuzzyReference) (asked : Text) (wanted : Option Version) (semantic : Bool)
      (best : Option Reference) (items : List PackageInfoV2)
      → (not semantic && is_some wanted) ≡ false
      → choose qt sv fuzzy asked wanted semantic best items
        ≡ newest best (candidates fuzzy asked items)
  unfolding choose candidates newest
  choose-newest fuzzy asked wanted semantic none [] h = refl
  choose-newest fuzzy asked wanted semantic (some best) [] h = refl
  choose-newest fuzzy asked wanted semantic best (item ∷ items) h =
      choose-newest_after fuzzy asked wanted semantic best item items h
        (λ next. choose-newest fuzzy asked wanted semantic next items h)

  -- Else the loop ends at the first that is of the wanted version.
  choose-first_of :
      (fuzzy : FuzzyReference) (asked : Text) (wanted : Version) (items : List PackageInfoV2)
      → choose qt sv fuzzy asked (some wanted) false none items
        ≡ first_of wanted (candidates fuzzy asked items)
  unfolding choose candidates first_of
  choose-first_of fuzzy asked wanted [] = refl
  choose-first_of fuzzy asked wanted (item ∷ items) =
      elim (Option-cases (match_reference qt sv item fuzzy asked)) [
        | inl e ↦ rw e (choose-first_of fuzzy asked wanted items)
        | inr (r, e) ↦ elim (Bool-cases (has_version wanted r)) [
          | inl f ↦ rw (e, f) refl
          | inr f ↦ rw (e, f) (choose-first_of fuzzy asked wanted items)
        ]
      ]

  -- What is chosen of the candidates: the newest, or one of the wanted version; and if nothing is,
  -- there is none to choose.
  abbrev pub IsChosen : Option Version → Bool → Result Reference → List Reference → Type 0
  IsChosen none semantic (ok r) rs = IsBest above r rs
  IsChosen none semantic (err e) rs = (e ≡ app_not_found_from_remote) × (rs ≡ [])
  IsChosen (some wanted) true (ok r) rs = IsBest above r rs
  IsChosen (some wanted) true (err e) rs = (e ≡ app_not_found_from_remote) × (rs ≡ [])
  IsChosen (some wanted) false (ok r) rs = Memᴰ r rs × (has_version wanted r ≡ true)
  IsChosen (some wanted) false (err e) rs =
      (e ≡ app_not_found_from_remote) × (any (has_version wanted) rs ≡ false)

  abbrev pub found : Option Reference → Result Reference
  found = or_fail app_not_found_from_remote

  IsChosen-later :
      (wanted : Version) (r : Reference) (rs : List Reference) (o : Option Reference)
      → IsChosen (some wanted) false (found o) rs
      → has_version wanted r ≡ false
      → IsChosen (some wanted) false (found o) (r ∷ rs)
  IsChosen-later wanted r rs none (e, h) k = (e, ground (arith, h, k))
  IsChosen-later wanted r rs (some o) (i, h) k = (Memᴰ.tail i, h)

  IsChosen-first_of :
      (wanted : Version) (rs : List Reference)
      → IsChosen (some wanted) false (found (first_of wanted rs)) rs
  unfolding first_of
  IsChosen-first_of wanted [] = (refl, refl)
  IsChosen-first_of wanted (r ∷ rs) = elim (Bool-cases (has_version wanted r)) [
    | inl e ↦ rw e (Memᴰ.head refl, e)
    | inr e ↦ rw e (IsChosen-later wanted r rs (first_of wanted rs) (IsChosen-first_of wanted rs) e)
  ]

  module _ (laws : PrecedenceLaws sv) where
    above-asym :
        (a b : Reference)
        → IsOrderedReference a
        → IsOrderedReference b
        → above a b ≡ true
        → above b a ≡ false
    above-asym a b h k e = ground (
      arith,
      trichotomy qt sv laws a.version b.version h k,
      trichotomy qt sv laws b.version a.version k h,
    )

    above-not_trans :
        (a b c : Reference)
        → IsOrderedReference a
        → IsOrderedReference b
        → IsOrderedReference c
        → above b a ≡ false
        → above c b ≡ false
        → above c a ≡ false
    above-not_trans a b c h k l e f = ground (
      arith,
      trichotomy qt sv laws b.version a.version k h,
      trichotomy qt sv laws c.version b.version l k,
      trichotomy qt sv laws c.version a.version l h,
      lt-not_trans qt sv laws c.version b.version a.version l k h,
    )

    IsChosen-newest :
        (semantic : Bool) (rs : List Reference)
        → All IsOrderedReference rs
        → IsChosen none semantic (found (newest none rs)) rs
    unfolding newest
    IsChosen-newest semantic [] hs = (refl, refl)
    IsChosen-newest semantic (r ∷ rs) hs =
        best_from-IsBest above IsOrderedReference above-asym above-not_trans r rs hs.0 hs.1

    choose-IsChosen :
        (fuzzy : FuzzyReference) (asked : Text) (wanted : Option Version) (semantic : Bool)
        (items : List PackageInfoV2)
        → All IsOrderedReference (candidates fuzzy asked items)
        → IsChosen wanted semantic
            (found (choose qt sv fuzzy asked wanted semantic none items))
            (candidates fuzzy asked items)
    choose-IsChosen fuzzy asked none semantic items hs =
        rw (choose-newest fuzzy asked none semantic none items (ground arith))
          (IsChosen-newest semantic (candidates fuzzy asked items) hs)
    choose-IsChosen fuzzy asked (some wanted) true items hs =
        rw (choose-newest fuzzy asked (some wanted) true none items refl)
          (IsChosen-newest true (candidates fuzzy asked items) hs)
    choose-IsChosen fuzzy asked (some wanted) false items hs =
        rw (choose-first_of fuzzy asked wanted items)
          (IsChosen-first_of wanted (candidates fuzzy asked items))

    -- Where the repository is found, the remote answers with records, and a given version parses: of
    -- the references of the records that match, whose versions `<` orders, `clearReference` gives
    -- one that no other is newer than, if no version is given or it is to be matched semantically,
    -- and else one of the given version; it fails, as not found, only where there is no such
    -- reference.
    pub clear_remote-IsChosen :
        (list : FuzzyReference → Repo → Result (List PackageInfoV2)) (cfg : RepoConfigV2)
        (fuzzy : FuzzyReference) (semantic : Bool) (asked : Text) (repo : Option Text)
        (default remote : Repo) (infos kept : List PackageInfoV2) (wanted : Option Version)
        → get_default_repo cfg ≡ some default
        → alias_repo cfg default repo ≡ ok remote
        → list fuzzy remote ≡ ok infos
        → filter_list qt sv fuzzy.version infos ≡ ok (kept, wanted)
        → All IsOrderedReference (candidates fuzzy asked kept)
        → IsChosen wanted semantic
            (clear_remote qt sv list cfg fuzzy semantic asked repo)
            (candidates fuzzy asked kept)
    unfolding clear_remote
    clear_remote-IsChosen list cfg fuzzy semantic asked repo default remote infos kept wanted h k l
          m hs =
        rw (h, k, l, m) (choose-IsChosen fuzzy asked wanted semantic kept hs)
