-- ===== src/Repo/Config/Convert.antt =====
-- What the conversion of an old configuration keeps.
use linyaps.Prelude.{
  ℕ, ◌+◌, ◌≡◌, refl, ap, sym, ◌∙◌, int_lt-asym, true, false, Option, none, some, List, [], ◌∷◌,
  Text, text_eq, text_eq_refl, text_eq→eq, All, arith, ℤ, pos, negsuc, int_lt, ◌-ℤ◌, Bool-cases,
  inl, inr,
}
use linyaps.Error.{ok}
use linyaps.Repo.Config.{
  Repo, RepoConfig, RepoConfigV2, find_repo, find_url, get_default_repo, save_config, convert_rest,
  convert_to_v2, get_repo_max_priority, max_from, priority_of,
}

abbrev Below : ℤ → Repo → Type 0
Below p r = int_lt r.priority p ≡ true

below_zero : (n : ℕ) → negsuc n -ℤ pos 100 ≡ negsuc (n + 100)
below_zero n = ground arith

convert_rest-Below :
    (default : Text) (n : ℕ) (rest : List (Text × Text))
    → All (Below (pos 0)) (convert_rest default (negsuc n) rest)
unfolding convert_rest
convert_rest-Below default n [] = tt
convert_rest-Below default n ((name, url) ∷ rest) = elim (Bool-cases (text_eq name default)) [
  | inl e ↦ rw e (convert_rest-Below default n rest)
  | inr e ↦ rw e (rw (below_zero n) (ground arith, convert_rest-Below default (n + 100) rest))
]

max_from-first :
    (best : Repo) (rs : List Repo) → All (Below best.priority) rs → max_from best rs ≡ best
unfolding max_from
max_from-first best [] h = refl
max_from-first best (r ∷ rs) h =
    rw (not_less best.priority r.priority h.0) (max_from-first best rs h.1)
  where
    not_less : (p q : ℤ) → int_lt q p ≡ true → int_lt p q ≡ false
    not_less p q k = int_lt-asym q p k

-- The address under a name.
abbrev pub url_of : Option Repo → Option Text
url_of none = none
url_of (some r) = some r.url

convert_rest-find :
    (default name : Text) (p : ℤ) (rest : List (Text × Text))
    → text_eq default name ≡ false
    → url_of (find_repo name (convert_rest default p rest)) ≡ find_url name rest
unfolding convert_rest find_repo find_url
convert_rest-find default name p [] h = refl
convert_rest-find default name p ((n, url) ∷ rest) h = ground (
  arith,
  convert_rest-find default name p rest h,
  convert_rest-find default name (p -ℤ pos 100) rest h,
  text_eq→eq n default,
  text_eq→eq n name,
  text_eq_refl name,
)

-- What a configuration in the new form says of the old one: each name has the same address, the
-- default repository has the highest priority, and the configuration can be saved.
pub record IsConverted (old : RepoConfig) (new : RepoConfigV2) : Type 0 where
  pub urls : (name : Text) → url_of (find_repo name new.repos) ≡ find_url name old.repos
  pub default_repo : new.default_repo ≡ old.default_repo
  pub highest : get_repo_max_priority new ≡ some (pos 0)
  pub default_priority : priority_of (get_default_repo new) ≡ some (pos 0)
  pub saved : save_config new true ≡ ok new

module _ (cfg : RepoConfig) (url : Text)
    (found : find_url cfg.default_repo cfg.repos ≡ some url) where
  abbrev converted : RepoConfigV2
  converted = record {
    default_repo = cfg.default_repo;
    repos =
        record { alias = none; name = cfg.default_repo; priority = pos 0; url = url }
        ∷ convert_rest cfg.default_repo (negsuc 99) cfg.repos;
    version = 2;
  }

  converted_urls : (name : Text) → url_of (find_repo name converted.repos) ≡ find_url name cfg.repos
  unfolding find_repo
  converted_urls name = elim (Bool-cases (text_eq cfg.default_repo name)) [
    | inl e ↦ rw e (sym found ∙ ap (λ n. find_url n cfg.repos) (text_eq→eq cfg.default_repo name e))
    | inr e ↦ rw e (convert_rest-find cfg.default_repo name (negsuc 99) cfg.repos e)
  ]

  converted-IsConverted : IsConverted cfg converted
  unfolding get_repo_max_priority get_default_repo save_config
  converted-IsConverted = record {
    urls = converted_urls;
    default_repo = refl;
    highest =
        ap (λ r. some r.priority)
          (max_from-first _ _ (convert_rest-Below cfg.default_repo 99 cfg.repos));
    default_priority = rw (text_eq_refl cfg.default_repo);
    saved = rw (text_eq_refl cfg.default_repo);
  }

-- The conversion of an old configuration in which the default repository has an address gives a
-- configuration with the same address for each name, in which the default repository has the
-- highest priority, and which can be saved.
pub convert_to_v2-IsConverted :
    (old : RepoConfig) (url : Text)
    → find_url old.default_repo old.repos ≡ some url
    → (new : RepoConfigV2) × (convert_to_v2 old ≡ some new) × IsConverted old new
unfolding convert_to_v2
convert_to_v2-IsConverted old url h = (converted old url h, rw h, converted-IsConverted old url h)
