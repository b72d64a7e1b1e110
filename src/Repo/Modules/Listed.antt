-- ===== src/Repo/Modules/Listed.antt =====
-- repo/ostree_repo.cpp: the modules that `getRemoteModuleList` gives.
use linyaps.Prelude.{
  ◌≡◌, refl, sym, ap, subst, ◌∙◌, Bool, true, false, not, ◌&&◌, ◌||◌, some, List, [], ◌∷◌, ◌++◌,
  Text, codes, text_eq, text_eq→eq, text_eq_refl, lex_lt, lex_lt-asym, lex_lt-total, lex_lt_trans,
  lex_le_trans, All, All-map, any, arith, Bool-cases, inl, inr, ◌==◌,
}
use linyaps.Prelude.Sort.{sort, count-sort, any-count_if, IsSorted, sort-IsSorted}
use linyaps.Error.{Result, ok}
use linyaps.Qt.{Qt}
use linyaps.Semver.{Semver}
use linyaps.Package.Version
use linyaps.Package.Reference.{Reference}
use linyaps.Package.FuzzyReference
use linyaps.Package.FuzzyReference.{FuzzyReference}
use linyaps.Repo.Config.{Repo}
use linyaps.Package.Info.{PackageInfoV2}
use linyaps.Repo.Modules.{
  includes, takes_module, taken_modules, add_runtime, unique_after, unique, list_modules,
  with_runtime, get_remote_module_list,
}

-- Each comes before all later ones.
abbrev pub IsAscending : List Text → Type 0
IsAscending [] = Unit
IsAscending (x ∷ xs) = All (λ y. lex_lt x y ≡ true) xs × IsAscending xs

abbrev IsAfter : Text → List Text → Type 0
IsAfter x ys = All (λ y. lex_lt x y ≡ true) ys

below : (x y : Text) → lex_lt y x ≡ false → text_eq x y ≡ false → lex_lt x y ≡ true
below x y h k = elim (Bool-cases (lex_lt x y)) [
  | inl e ↦ e
  | inr e ↦
      let same = ap (text_eq x) (lex_lt-total x y e h) in
      ground (arith, k, sym same ∙ text_eq_refl x)
]

unique_after-IsAscending :
    (last : Text) (xs : List Text)
    → All (λ y. lex_lt y last ≡ false) xs
    → IsSorted lex_lt xs
    → IsAfter last (unique_after last xs) × IsAscending (unique_after last xs)
unfolding unique_after
unique_after-IsAscending last [] hs s = (tt, tt)
unique_after-IsAscending last (x ∷ xs) hs s =
    let (after, ascending) = unique_after-IsAscending x xs s.0 s.1 in
    elim (Bool-cases (text_eq last x)) [
      | inl e ↦
          rw e (
            subst (λ t. IsAfter t (unique_after x xs)) (sym (text_eq→eq last x e)) after,
            ascending,
          )
      | inr e ↦
          let first = below last x hs.0 e in
          let later =
            All-map (λ y. lex_lt x y ≡ true) (λ y. lex_lt last y ≡ true)
              (λ y h. lex_lt_trans last x y first h) (unique_after x xs) after in
          rw e ((first, later), (after, ascending))
    ]

unique-IsAscending : (xs : List Text) → IsSorted lex_lt xs → IsAscending (unique xs)
unfolding unique
unique-IsAscending [] s = tt
unique-IsAscending (x ∷ xs) s = unique_after-IsAscending x xs s.0 s.1

includes-unique_after :
    (name last : Text) (xs : List Text)
    → includes (last ∷ unique_after last xs) name ≡ includes (last ∷ xs) name
unfolding unique_after
includes-unique_after name last [] = refl
includes-unique_after name last (x ∷ xs) =
    let later = includes-unique_after name x xs in
    elim (Bool-cases (text_eq last x)) [
      | inl e ↦
          let same = ap (text_eq name) (text_eq→eq last x e) in rw e (ground (arith, later, same))
      | inr e ↦ rw e (ap (λ b. text_eq name last || b) later)
    ]

includes-unique : (name : Text) (xs : List Text) → includes (unique xs) name ≡ includes xs name
unfolding unique
includes-unique name [] = refl
includes-unique name (x ∷ xs) = includes-unique_after name x xs

includes-sort : (name : Text) (xs : List Text) → includes (sort lex_lt xs) name ≡ includes xs name
includes-sort name xs =
    any-count_if (text_eq name) (sort lex_lt xs)
    ∙ ap (λ n. not (n == 0)) (count-sort lex_lt (text_eq name) xs)
    ∙ sym (any-count_if (text_eq name) xs)

-- A module is asked for by its name, and `binary` by the name `runtime`, too.
abbrev pub is_asked : List Text → Text → Bool
is_asked names name =
    includes names name || (text_eq name (codes "binary") && includes names (codes "runtime"))

takes_module-asked :
    (names : List Text) (name : Text) → takes_module (some names) name ≡ is_asked names name
unfolding takes_module
takes_module-asked names name = ground arith

-- Whether a record has the module, and it is asked for.
abbrev pub is_taken : List Text → Text → PackageInfoV2 → Bool
is_taken names name info = text_eq name info.module_name && is_asked names name

-- What is offered of the modules asked for: those of the records, `binary` also for `runtime`, and
-- `runtime` in place of a `binary` that is not there.
abbrev pub is_offered : List Text → List PackageInfoV2 → Text → Bool
is_offered names infos name =
    any (is_taken names name) infos
    || (text_eq name (codes "runtime")
        && (includes names (codes "binary") && not (any (is_taken names (codes "binary")) infos)))

taken-step :
    (names : List Text) (name : Text) (info : PackageInfoV2) (infos : List PackageInfoV2)
    → includes (taken_modules (some names) infos) name ≡ any (is_taken names name) infos
    → takes_module (some names) info.module_name ≡ is_asked names name
    → includes (taken_modules (some names) (info ∷ infos)) name
      ≡ any (is_taken names name) (info ∷ infos)
unfolding taken_modules
taken-step names name info infos h same = ground (arith, h, same)

taken-other :
    (names : List Text) (name : Text) (info : PackageInfoV2) (infos : List PackageInfoV2)
    → includes (taken_modules (some names) infos) name ≡ any (is_taken names name) infos
    → text_eq name info.module_name ≡ false
    → includes (taken_modules (some names) (info ∷ infos)) name
      ≡ any (is_taken names name) (info ∷ infos)
unfolding taken_modules
taken-other names name info infos h e = ground (arith, h, e)

includes-taken_modules :
    (names : List Text) (name : Text) (infos : List PackageInfoV2)
    → includes (taken_modules (some names) infos) name ≡ any (is_taken names name) infos
unfolding taken_modules
includes-taken_modules names name [] = refl
includes-taken_modules names name (info ∷ infos) =
    let later = includes-taken_modules names name infos in
    elim (Bool-cases (text_eq name info.module_name)) [
      | inl e ↦
          let same =
            takes_module-asked names info.module_name
            ∙ sym (ap (is_asked names) (text_eq→eq name info.module_name e)) in
          taken-step names name info infos later same
      | inr e ↦ taken-other names name info infos later e
    ]

includes-append :
    (name last : Text) (xs : List Text)
    → includes (xs ++ last ∷ []) name ≡ (includes xs name || text_eq name last)
includes-append name last [] = ground arith
includes-append name last (x ∷ xs) = ground (arith, includes-append name last xs)

includes-with_runtime :
    (names : List Text) (infos : List PackageInfoV2) (name : Text)
    → includes (with_runtime names (taken_modules (some names) infos)) name
      ≡ is_offered names infos name
unfolding with_runtime
includes-with_runtime names infos name = ground (
  arith,
  includes-taken_modules names name infos,
  includes-taken_modules names (codes "binary") infos,
  includes-append name (codes "runtime") (taken_modules (some names) infos),
)

All-trivial : (xs : List Text) → All (λ x. Unit {0}) xs
All-trivial [] = tt
All-trivial (x ∷ xs) = (tt, All-trivial xs)

sort_modules-IsAscending : (xs : List Text) → IsAscending (unique (sort lex_lt xs))
sort_modules-IsAscending xs = unique-IsAscending (sort lex_lt xs) (
    sort-IsSorted lex_lt (λ x. Unit {0}) (λ a b p q h. lex_lt-asym a b h)
      (λ a b c p q r h k. lex_le_trans a b c h k) xs (All-trivial xs))

module _ (qt : Qt) (sv : Semver) where
  -- Where the remote repository answers with at least one record, and there is a filter:
  -- `getRemoteModuleList` succeeds, gives each module once and in the order of the alphabet, and
  -- gives a module exactly where it is offered: where a record has it and the filter has it, or it
  -- is `binary` and the filter has `runtime`; or it is `runtime`, the filter has `binary` and no
  -- record does.
  pub get_remote_module_list-IsAscending :
      (list : FuzzyReference → Repo → Result (List PackageInfoV2)) (ref : Reference)
      (names : List Text) (repo : Repo) (fuzzy : FuzzyReference) (info : PackageInfoV2)
      (infos : List PackageInfoV2)
      → FuzzyReference.create
          (some ref.channel)
          ref.id
          (some (Version.to_string qt sv ref.version))
          (some ref.arch)
        ≡ ok fuzzy
      → list fuzzy repo ≡ ok (info ∷ infos)
      → (modules : List Text) × (get_remote_module_list qt sv list ref (some names) repo
          ≡ ok modules)
        × IsAscending modules
        × ((name : Text) → includes modules name ≡ is_offered names (info ∷ infos) name)
  unfolding get_remote_module_list list_modules add_runtime
  get_remote_module_list-IsAscending list ref names repo fuzzy info infos h k =
      let taken = with_runtime names (taken_modules (some names) (info ∷ infos)) in
      (
        unique (sort lex_lt taken),
        rw (h, k) refl,
        sort_modules-IsAscending taken,
        λ name.
            includes-unique name (sort lex_lt taken)
            ∙ includes-sort name taken
            ∙ includes-with_runtime names (info ∷ infos) name,
      )
