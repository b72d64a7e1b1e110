-- ===== src/Repo/Config.antt =====
-- repo/config.h and config.cpp, and the functions of ostree_repo.cpp that read and change the
-- priorities of repositories. `api::types::v1::Repo`, `RepoConfig` and `RepoConfigV2` are generated
-- types.
pub mod Convert
pub mod Priority
use linyaps.Prelude.{
  ℕ, suc, ◌+◌, ◌*◌, Bool, true, false, not, ◌&&◌, ◌||◌, Option, none, some, List, [], ◌∷◌, ◌++◌,
  Text, text_eq, any, is_empty, if◌then◌else◌, ℤ, pos, negsuc, int_eq, int_lt, ◌-ℤ◌,
}
use linyaps.Error.{
  Result, ok, err, ◌>>=◌, or_fail, load_failed, default_repo_missing, open_failed, repo_not_found,
}

pub record Repo : Type 0 where
  pub alias : Option Text
  pub name : Text
  pub priority : ℤ
  pub url : Text

-- `repos` is a `std::map`: its keys are distinct.
pub record RepoConfig : Type 0 where
  pub default_repo : Text
  pub repos : List (Text × Text)

pub record RepoConfigV2 : Type 0 where
  pub default_repo : Text
  pub repos : List Repo
  pub version : ℕ

-- `repo.alias.value_or(repo.name)`
abbrev pub alias_or : Option Text → Text → Text
alias_or none name = name
alias_or (some alias) name = alias

abbrev pub called : Text → Repo → Bool
called alias repo = text_eq (alias_or repo.alias repo.name) alias

-- `std::find_if` over repositories; `none` is the end.
unfoldable pub find_repo : Text → List Repo → Option Repo
find_repo alias [] = none
find_repo alias (repo ∷ repos) =
    let later = find_repo alias repos in if called alias repo then some repo else later

-- What a file holds, if it can be opened, and what the YAML library makes of a text.
pub record Files : Type 0 where
  pub read : Text → Option Text
  pub load_v2 : Text → Option RepoConfigV2
  pub load_v1 : Text → Option RepoConfig

-- `*defaultRepo`: the end of the sequence cannot be read, which is `none` here.
unfoldable pub get_default_repo : RepoConfigV2 → Option Repo
unfolding find_repo
get_default_repo cfg = find_repo cfg.default_repo cfg.repos

-- This configuration is written to the file only if the result is `ok`. Whether the file takes all of
-- it, the code does not look at.
unfoldable pub save_config : RepoConfigV2 → Bool → Result RepoConfigV2
save_config cfg opens =
    if not (any (called cfg.default_repo) cfg.repos)
    then err default_repo_missing
    else if not opens
    then err open_failed
    else ok cfg

-- `std::map` lookup by `find_if` on the key.
unfoldable pub find_url : Text → List (Text × Text) → Option Text
find_url key [] = none
find_url key ((name, url) ∷ rest) =
    let later = find_url key rest in if text_eq name key then some url else later

-- The loop over the other repositories, from the given priority down.
unfoldable pub convert_rest : Text → ℤ → List (Text × Text) → List Repo
convert_rest default priority [] = []
convert_rest default priority ((name, url) ∷ rest) =
    let skipped = convert_rest default priority rest in
    let added =
      record { alias = none; name = name; priority = priority; url = url }
      ∷ convert_rest default (priority -ℤ pos 100) rest in
    if text_eq name default then skipped else added

with_default : RepoConfig → Option Text → Option RepoConfigV2
unfolding convert_rest
with_default cfg none = none
with_default cfg (some url) = some (record {
  default_repo = cfg.default_repo;
  repos =
      record { alias = none; name = cfg.default_repo; priority = pos 0; url = url }
      ∷ convert_rest cfg.default_repo (negsuc 99) cfg.repos;
  version = 2;
})

-- `none` where the default repository is missing, whose entry the code reads all the same.
unfoldable pub convert_to_v2 : RepoConfig → Option RepoConfigV2
unfolding with_default find_url
convert_to_v2 cfg = with_default cfg (find_url cfg.default_repo cfg.repos)

convert_loaded : Option RepoConfig → Result RepoConfigV2
convert_loaded none = err load_failed
convert_loaded (some cfg) = or_fail load_failed (convert_to_v2 cfg)

load_content : Files → Text → Result RepoConfigV2
unfolding convert_loaded
load_content fs content = elim (fs.load_v2 content) [
  | some cfg ↦ ok cfg
  | none ↦ convert_loaded (fs.load_v1 content)
]

-- One file.
unfoldable pub load_config : Files → Text → Result RepoConfigV2
unfolding load_content
load_config fs file = do content ← or_fail open_failed (fs.read file); load_content fs content

abbrev or_next : Result RepoConfigV2 → Result RepoConfigV2 → Result RepoConfigV2
or_next (ok cfg) next = ok cfg
or_next (err e) next = next

-- The first of several files that loads.
unfoldable pub load_configs : Files → List Text → Result RepoConfigV2
unfolding load_config
load_configs fs [] = err load_failed
load_configs fs (file ∷ files) =
    let next = load_configs fs files in or_next (load_config fs file) next

-- `std::min_element` and `std::max_element` by priority; `none` where the end would be read.
abbrev less : Repo → Repo → Bool
less a b = int_lt a.priority b.priority

min_from : Repo → List Repo → Repo
min_from best [] = best
min_from best (r ∷ rs) = min_from (if less r best then r else best) rs

max_from : Repo → List Repo → Repo
max_from best [] = best
max_from best (r ∷ rs) = max_from (if less best r then r else best) rs

unfoldable pub get_repo_min_priority : RepoConfigV2 → Option ℤ
unfolding min_from
get_repo_min_priority cfg = elim cfg.repos [ [] ↦ none | r ∷ rs ↦ some (min_from r rs).priority ]

unfoldable pub get_repo_max_priority : RepoConfigV2 → Option ℤ
unfolding max_from
get_repo_max_priority cfg = elim cfg.repos [ [] ↦ none | r ∷ rs ↦ some (max_from r rs).priority ]

-- ostree_repo.cpp from here on. `std::stable_sort`, highest priority first.
insert_ordered : Repo → List Repo → List Repo
insert_ordered x [] = x ∷ []
insert_ordered x (y ∷ ys) =
    let later = insert_ordered x ys in if less x y then y ∷ later else x ∷ y ∷ ys

unfoldable pub sort_repos : List Repo → List Repo
unfolding insert_ordered
sort_repos [] = []
sort_repos (x ∷ xs) = insert_ordered x (sort_repos xs)

unfoldable pub get_ordered_config : RepoConfigV2 → RepoConfigV2
unfolding sort_repos
get_ordered_config cfg = record cfg { repos = sort_repos cfg.repos }

unfoldable pub copy_if_priority : ℤ → List Repo → List Repo
copy_if_priority p [] = []
copy_if_priority p (r ∷ rs) =
    let rest = copy_if_priority p rs in if int_eq r.priority p then r ∷ rest else rest

highest_of : List Repo → List Repo
unfolding copy_if_priority
highest_of [] = []
highest_of (r ∷ rs) = copy_if_priority r.priority (r ∷ rs)

-- Of no repositories the code reads a front that is not there; here the result is empty.
unfoldable pub get_highest_priority_repos : RepoConfigV2 → List Repo
unfolding get_ordered_config highest_of
get_highest_priority_repos cfg = highest_of (get_ordered_config cfg).repos

unfoldable pub get_repo_by_alias : RepoConfigV2 → Text → Result Repo
unfolding find_repo
get_repo_by_alias cfg alias =
    if is_empty cfg.repos
    then err repo_not_found
    else or_fail repo_not_found (find_repo alias cfg.repos)

-- `it->priority = p` at the first repository of that name.
unfoldable pub set_priority : Text → ℤ → List Repo → List Repo
set_priority alias p [] = []
set_priority alias p (r ∷ rs) =
    let later = set_priority alias p rs in
    if called alias r then record r { priority = p } ∷ rs else r ∷ later

-- `std::numeric_limits<int64_t>::max()`
abbrev pub max_priority : ℤ
max_priority = pos 9223372036854775807

abbrev pub priority_of : Option Repo → Option ℤ
priority_of none = none
priority_of (some r) = some r.priority

-- The new configuration, and the priority that was; `none` where the assertion fails.
unfoldable pub promote_priority : RepoConfigV2 → Text → RepoConfigV2 × Option ℤ
unfolding find_repo set_priority
promote_priority cfg alias = (
  record cfg { repos = set_priority alias max_priority cfg.repos },
  priority_of (find_repo alias cfg.repos),
)

unfoldable pub recover_priority : RepoConfigV2 → Text → ℤ → RepoConfigV2
unfolding set_priority
recover_priority cfg alias p = record cfg { repos = set_priority alias p cfg.repos }
