-- ===== src/Repo/Update.antt =====
-- repo/ostree_repo.cpp: `setConfig`, `updateConfig` and `updateOstreeRepoConfig`, which change the
-- configuration in memory, its file, the remotes of the OSTree repository and the cache.
pub mod Outcome
use linyaps.Prelude.{ℕ, Bool, Option, none, some, List, [], ◌∷◌, ◌++◌, Text, codes, take, drop}
use linyaps.Error.{Error, Result, ok, err, ostree_failed}
use linyaps.Repo.Config.{Repo, RepoConfigV2, alias_or, get_default_repo, save_config}
use linyaps.Repo.Cache.{RepoCache, RefEntry, Disk, rebuild_cache}
use linyaps.Utils.Transaction.{Transaction, empty, add_roll_back, commit, destroy}

-- A remote of the OSTree repository: its name, and where it is.
abbrev pub Remote : Type 0
Remote = Text × Text

-- `cfg`, the content of config.yaml, the remotes, the cache, and the server of the HTTP client.
pub record ConfigState : Type 0 where
  pub cfg : RepoConfigV2
  pub file : Option RepoConfigV2
  pub remotes : List Remote
  pub cache : RepoCache
  pub server : Text

-- How far OSTree lets `updateOstreeRepoConfig` come: a number of remotes are deleted and then it
-- fails, all are and a number are added, all are added but not written, or it succeeds.
pub data RemoteSteps : Type 0 where
  deleted_only added_only : ℕ → RemoteSteps
  not_written all_updated : RemoteSteps

-- The options of a remote (no check of signatures, no HTTP/2, mirrors) are not modelled.
unfoldable pub remotes_of : List Repo → List Remote
remotes_of [] = []
remotes_of (repo ∷ repos) =
    (alias_or repo.alias repo.name, repo.url ++ codes "/repos/" ++ repo.name) ∷ remotes_of repos

unfoldable pub update_ostree_repo_config :
    RemoteSteps → RepoConfigV2 → List Remote → Result (Unit {0}) × List Remote
unfolding remotes_of
update_ostree_repo_config (deleted_only n) config remotes = (err ostree_failed, drop n remotes)
update_ostree_repo_config (added_only n) config remotes =
    (err ostree_failed, take n (remotes_of config.repos))
update_ostree_repo_config not_written config remotes = (err ostree_failed, remotes_of config.repos)
update_ostree_repo_config all_updated config remotes = (ok tt, remotes_of config.repos)

-- What the system lets the calls do: whether config.yaml opens, what it holds after a configuration is
-- written to it (another one or none, where the text is cut off), how far the remotes change, and the
-- same three again for the rollbacks; and what `rebuildCache` meets.
pub record Calls : Type 0 where
  pub opens : Bool
  pub written : RepoConfigV2 → Option RepoConfigV2
  pub steps : RemoteSteps
  pub opens_back : Bool
  pub written_back : RepoConfigV2 → Option RepoConfigV2
  pub steps_back : RemoteSteps
  pub ll_version : Text
  pub disk : Disk
  pub is_root : Bool
  pub refs : Option (List RefEntry)

file_after :
    (RepoConfigV2 → Option RepoConfigV2)
    → Option RepoConfigV2
    → Result RepoConfigV2
    → Option RepoConfigV2
file_after written file (ok cfg) = written cfg
file_after written file (err e) = file

-- The rollbacks: a failure of theirs is only logged.
unfoldable pub restore_file : Calls → ConfigState → ConfigState
unfolding file_after
restore_file calls s = record s {
  file = file_after calls.written_back s.file (save_config s.cfg calls.opens_back);
}

unfoldable pub restore_remotes : Calls → ConfigState → ConfigState
unfolding update_ostree_repo_config
restore_remotes calls s = record s {
  remotes = (update_ostree_repo_config calls.steps_back s.cfg s.remotes).1;
}

-- A method's result and the object after it.
abbrev pub Outcome : Type 0
Outcome = Result (Unit {0}) × ConfigState

abbrev server_of : RepoConfigV2 → Text → Text
server_of cfg server = elim (get_default_repo cfg) [ none ↦ server | some repo ↦ repo.url ]

-- A failure returns, and the transaction is destroyed.
unfoldable pub or_roll_back :
    Transaction ConfigState → ConfigState → Result (Unit {0}) → Outcome → Outcome
unfolding destroy
or_roll_back transaction s (err e) next = (err e, destroy transaction s)
or_roll_back transaction s (ok done) next = next

-- From the call of `rebuildCache` on.
unfoldable pub finish_set : Calls → RepoConfigV2 → Transaction ConfigState → ConfigState → Outcome
unfolding or_roll_back commit destroy rebuild_cache
finish_set calls cfg transaction s =
    let rebuilt = rebuild_cache calls.ll_version calls.disk calls.is_root calls.refs cfg s.cache in
    let kept = record s { cache = rebuilt.1 } in
    or_roll_back transaction kept rebuilt.0 (
      ok tt,
      destroy (commit transaction) (record kept { server = server_of cfg kept.server; cfg = cfg }),
    )

-- Once the remotes are changed, or are not.
unfoldable pub after_remotes :
    Calls
    → RepoConfigV2
    → Transaction ConfigState
    → ConfigState
    → Result (Unit {0}) × List Remote
    → Outcome
unfolding finish_set restore_remotes add_roll_back destroy
after_remotes calls cfg transaction s (err e, remotes) =
    (err e, destroy transaction (record s { remotes = remotes }))
after_remotes calls cfg transaction s (ok done, remotes) =
    finish_set calls cfg (add_roll_back (restore_remotes calls) transaction)
      (record s { remotes = remotes })

unfoldable pub set_saved : Calls → RepoConfigV2 → ConfigState → Result RepoConfigV2 → Outcome
unfolding after_remotes restore_file update_ostree_repo_config
set_saved calls cfg s (err e) = (err e, s)
set_saved calls cfg s (ok saved) =
    after_remotes calls cfg (add_roll_back (restore_file calls) empty)
      (record s { file = calls.written saved })
      (update_ostree_repo_config calls.steps cfg s.remotes)

unfoldable pub set_config : Calls → RepoConfigV2 → ConfigState → Outcome
unfolding set_saved
set_config calls cfg s = set_saved calls cfg s (save_config cfg calls.opens)

-- Once the remotes are changed, or are not; the rollback is added in both cases.
unfoldable pub finish_update :
    Calls → RepoConfigV2 → ConfigState → Result (Unit {0}) × List Remote → Outcome
unfolding restore_remotes add_roll_back commit destroy
finish_update calls cfg s (err e, remotes) =
    (err e, destroy (add_roll_back (restore_remotes calls) empty) (record s { remotes = remotes }))
finish_update calls cfg s (ok done, remotes) = (
  ok tt,
  record (destroy (commit (add_roll_back (restore_remotes calls) empty))
      (record s { remotes = remotes })) { server = server_of cfg s.server; cfg = cfg },
)

unfoldable pub update_saved : Calls → RepoConfigV2 → ConfigState → Result RepoConfigV2 → Outcome
unfolding finish_update update_ostree_repo_config
update_saved calls cfg s (err e) = (err e, s)
update_saved calls cfg s (ok saved) =
    finish_update calls cfg (record s { file = calls.written saved })
      (update_ostree_repo_config calls.steps cfg s.remotes)

unfoldable pub update_config : Calls → RepoConfigV2 → ConfigState → Outcome
unfolding update_saved
update_config calls new_cfg s = update_saved calls new_cfg s (save_config new_cfg calls.opens)
