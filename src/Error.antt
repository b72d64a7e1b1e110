-- ===== src/Error.antt =====
-- `utils::error::Result` (libs/utils/src/linglong/utils/error/error.h): a value or the reason of a
-- failure. One constructor stands for each message that the modelled code reports.
use mathlib.Core.Path.{◌≡◌, refl, ap}
use mathlib.Core.Logic.{◌⊎◌, inl, inr}
use mathlib.Core.Option.{Option, none, some}

pub data Error : Type 0 where
  regexp_mismatched : Error
  major_too_large : Error
  minor_too_large : Error
  patch_too_large : Error
  tweak_too_large : Error
  invalid_semver : Error
  parse_fallback_failed : Error
  parse_version_failed : Error
  unknown_architecture : Error
  tweak_required : Error
  empty_channel : Error
  empty_id : Error
  invalid_fuzzy_reference : Error
  item_exists : Error
  item_missing : Error
  write_failed : Error
  load_failed : Error
  list_refs_failed : Error
  default_repo_missing : Error
  open_failed : Error
  repo_not_found : Error
  check_exists_failed : Error
  arch_mismatch : Error
  app_not_found_from_local : Error
  app_not_found_from_remote : Error
  app_install_not_found_from_remote : Error
  layer_incompatible : Error
  broken_cache : Error
  network_error : Error
  request_failed : Error
  ambiguous_layer : Error
  layer_missing : Error
  layer_dir_missing : Error
  module_empty : Error
  module_missing : Error
  merged_missing : Error
  ostree_failed : Error
  not_resolved : Error
  not_runnable : Error
  base_incompatible : Error
  bundle_failed : Error
  layer_dir_unset : Error
  no_module : Error
  bad_optional_access : Error

pub data Result {ℓ} (A : Type ℓ) : Type ℓ where
  ok : A → Result A
  err : Error → Result A

-- A step whose failure has the given reason.
abbrev pub or_fail {ℓ} : {A : Type ℓ} → Error → Option A → Result A
or_fail e none = err e
or_fail e (some a) = ok a

module _ {ℓ κ} {A : Type ℓ} {B : Type κ} where
  -- A failure is handed on, as by `LINGLONG_ERR` of a result.
  infixl 5 ◌>>=◌
  abbrev pub ◌>>=◌ : Result A → (A → Result B) → Result B
  err reason >>= next = err reason
  ok value >>= next = next value

  -- Both steps of a chain that succeeds succeed.
  pub >>=-eq-ok :
      (first : Result A) (next : A → Result B) {last : B}
      → (first >>= next) ≡ ok last
      → (value : A) × (first ≡ ok value) × (next value ≡ ok last)
  >>=-eq-ok (err reason) next h = cc
  >>=-eq-ok (ok value) next h = (value, refl, h)

pub or_fail-eq-ok {ℓ} :
    {A : Type ℓ} (e : Error) (o : Option A) {a : A} → or_fail e o ≡ ok a → o ≡ some a
or_fail-eq-ok e none h = cc
or_fail-eq-ok e (some b) h = cc

-- To split on a computed result and keep the equation.
pub Result-cases {ℓ} :
    {A : Type ℓ} (r : Result A) → ((e : Error) × (r ≡ err e)) ⊎ ((a : A) × (r ≡ ok a))
Result-cases (err e) = inl (e, refl)
Result-cases (ok a) = inr (a, refl)

get_or {ℓ} : {A : Type ℓ} → A → Result A → A
get_or d (ok a) = a
get_or d (err e) = d

pub ok-injective {ℓ} : {A : Type ℓ} {a b : A} → ok a ≡ ok b → a ≡ b
unfolding get_or
ok-injective {a} h = ap (get_or a) h
