-- ===== src/Repo/Remote.antt =====
-- repo/ostree_repo.cpp: `listRemote`, `matchReference`, and the part of `clearReference` that asks a
-- remote repository.
pub mod Newest
use linyaps.Prelude.{
  ℕ, Bool, true, false, not, ◌&&◌, ◌||◌, Option, none, some, List, [], ◌∷◌, Text, codes, text_eq,
  is_some, if◌then◌else◌, ◌==◌,
}
use linyaps.Error.{
  Error, Result, ok, err, ◌>>=◌, or_fail, network_error, request_failed, default_repo_missing,
  app_not_found_from_remote,
}
use linyaps.Qt.{Qt}
use linyaps.Semver.{Semver}
use linyaps.Package.Architecture
use linyaps.Package.Architecture.{Architecture}
use linyaps.Package.Version
use linyaps.Package.Version.{Version, default_options, filter_by_fuzzy_version}
use linyaps.Package.Info.{PackageInfoV2}
use linyaps.Package.Reference
use linyaps.Package.Reference.{Reference}
use linyaps.Package.FuzzyReference.{FuzzyReference}
use linyaps.Repo.Config.{Repo, RepoConfigV2, get_default_repo, get_repo_by_alias}

-- `request_fuzzy_search_req_t`
pub record SearchRequest : Type 0 where
  pub app_id : Text
  pub channel : Option Text
  pub version : Option Text
  pub arch : Text
  pub repo_name : Text

-- `request_register_struct_t`, as far as it is read.
pub record RemoteItem : Type 0 where
  pub app_id : Text
  pub arch : Text
  pub channel : Text
  pub kind : Text
  pub module_name : Text
  pub runtime : Text
  pub version : Text

-- `fuzzy_search_app_200_response_t`; no data and no entries are both the empty list.
pub record SearchResponse : Type 0 where
  pub code : ℕ
  pub msg : Option Text
  pub entries : List RemoteItem

-- The generated HTTP client, asked at a server: no response, or one. `to_latin1` is
-- `QString::toLatin1`.
pub record Client : Type 0 where
  pub search : Text → SearchRequest → Option SearchResponse
  pub to_latin1 : Text → Text

abbrev latin1_given : Client → Option Text → Option Text
latin1_given client none = none
latin1_given client (some t) = some (client.to_latin1 t)

abbrev arch_or : Option Architecture → Architecture → Architecture
arch_or none current = current
arch_or (some arch) current = arch

abbrev repo_or : Option Repo → Repo → Repo
repo_or none default = default
repo_or (some repo) default = repo

abbrev server_or : Option Repo → Text → Text
server_or none server = server
server_or (some repo) server = repo.url

unfoldable pub info_of : RemoteItem → PackageInfoV2
info_of item = record {
  id = item.app_id;
  channel = item.channel;
  version = item.version;
  arch = item.arch ∷ [];
  module_name = item.module_name;
  uuid = none;
  kind = item.kind;
  base = [];
  runtime = some item.runtime;
  extensions = none;
  ext_impl = none;
  permissions = none;
}

unfoldable infos_of : List RemoteItem → List PackageInfoV2
unfolding info_of
infos_of [] = []
infos_of (item ∷ items) = info_of item ∷ infos_of items

unfoldable read_response : Option SearchResponse → Result (List PackageInfoV2)
unfolding infos_of
read_response none = err network_error
read_response (some response) =
    if not (response.code == 200)
    then err (if is_some response.msg then request_failed else network_error)
    else ok (infos_of response.entries)

unfoldable request_of : Client → FuzzyReference → Text → Architecture → SearchRequest
request_of client fuzzy repo_name current = record {
  app_id = client.to_latin1 fuzzy.id;
  channel = latin1_given client fuzzy.channel;
  version = latin1_given client fuzzy.version;
  arch = client.to_latin1 (Architecture.to_string (arch_or fuzzy.arch current));
  repo_name = repo_name;
}

-- `server` is the one that is set when the call starts. A failing `strndup` is not modelled, and
-- where the default repository is missing the code reads past the end of the repositories.
unfoldable pub list_remote :
    Client
    → Result Architecture
    → RepoConfigV2
    → Text
    → FuzzyReference
    → Option Repo
    → Result (List PackageInfoV2)
unfolding read_response request_of
list_remote client host cfg server fuzzy repo = do
  default ← or_fail default_repo_missing (get_default_repo cfg)
  current ← host
  read_response (
      client.search (server_or repo server)
        (request_of client fuzzy (repo_or repo default).name current))

-- `fuzzy.channel && fuzzy.channel->toStdString() != record.channel`
abbrev other_channel : Option Text → Text → Bool
other_channel none channel = false
other_channel (some asked) channel = not (text_eq asked channel)

-- `binary` stands for `runtime` too.
unfoldable pub fits_module : Text → Text → Bool
fits_module asked name =
    if text_eq asked (codes "binary")
    then not (not (text_eq name (codes "binary")) && not (text_eq name (codes "runtime")))
    else text_eq name asked

-- The value of a result, where its failure is only logged.
abbrev pub to_option {ℓ} : {A : Type ℓ} → Result A → Option A
to_option (ok a) = some a
to_option (err e) = none

abbrev pub alias_repo : RepoConfigV2 → Repo → Option Text → Result Repo
alias_repo cfg default none = ok default
alias_repo cfg default (some alias) = get_repo_by_alias cfg alias

module _ (qt : Qt) (sv : Semver) where
  -- The steps after the channel and the identifier are compared.
  unfoldable match_rest : PackageInfoV2 → FuzzyReference → Text → List Text → Result Reference
  unfolding fits_module
  match_rest item fuzzy asked [] = err app_not_found_from_remote
  match_rest item fuzzy asked (raw_arch ∷ more) = do
    version ← Version.parse qt sv item.version default_options
    if not (fits_module asked item.module_name) then err app_not_found_from_remote else do
      arch ← Architecture.parse raw_arch
      Reference.create item.channel fuzzy.id version arch

  unfoldable pub match_reference : PackageInfoV2 → FuzzyReference → Text → Option Reference
  unfolding match_rest
  match_reference item fuzzy asked =
      if other_channel fuzzy.channel item.channel
      then none
      else if not (text_eq fuzzy.id item.id)
      then none
      else to_option (match_rest item fuzzy asked item.arch)

  -- `!reference || currentRefRet->version > reference->version`
  unfoldable pub later : Option Reference → Reference → Reference
  later none current = current
  later (some best) current =
      if Version.gt qt sv current.version best.version then current else best

  -- `reference` after a turn of the loop.
  unfoldable next_best :
      Option Version → Bool → Option Reference → Option Reference → Option Reference
  unfolding later
  next_best wanted semantic best none = best
  next_best none semantic best (some current) = some (later best current)
  next_best (some wanted) semantic best (some current) =
      if semantic
      then some (later best current)
      else if Version.eq qt sv current.version wanted
      then some current
      else best

  -- Whether the turn ends the loop.
  unfoldable stops : Option Version → Bool → Option Reference → Bool
  stops wanted semantic none = false
  stops none semantic (some current) = false
  stops (some wanted) semantic (some current) =
      if semantic then false else Version.eq qt sv current.version wanted

  unfoldable pub choose :
      FuzzyReference
      → Text
      → Option Version
      → Bool
      → Option Reference
      → List PackageInfoV2
      → Option Reference
  unfolding next_best stops
  choose fuzzy asked wanted semantic best [] = best
  choose fuzzy asked wanted semantic best (item ∷ items) =
      let matched = match_reference item fuzzy asked in
      let next = next_best wanted semantic best matched in
      let rest = choose fuzzy asked wanted semantic next items in
      if stops wanted semantic matched then next else rest

  -- `list` and `fuzzyVersion`, after the records are filtered.
  unfoldable pub filter_list :
      Option Text → List PackageInfoV2 → Result (List PackageInfoV2 × Option Version)
  filter_list none list = ok (list, none)
  filter_list (some raw) list = do
    version ← Version.parse qt sv raw default_options
    ok (filter_by_fuzzy_version qt sv list raw, some version)

  -- `clearReference` from the choice of the repository on. `list` is `listRemote`, and `asked` the
  -- module.
  unfoldable pub clear_remote :
      (FuzzyReference → Repo → Result (List PackageInfoV2))
      → RepoConfigV2
      → FuzzyReference
      → Bool
      → Text
      → Option Text
      → Result Reference
  unfolding filter_list choose
  clear_remote list cfg fuzzy semantic asked repo = do
    default ← or_fail default_repo_missing (get_default_repo cfg)
    remote ← alias_repo cfg default repo
    infos ← list fuzzy remote
    filtered ← filter_list fuzzy.version infos
    or_fail app_not_found_from_remote (choose fuzzy asked filtered.1 semantic none filtered.0)
