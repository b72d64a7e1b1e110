-- ===== src/Samples/Configs.antt =====
-- The theorems on changes of the configuration at concrete inputs.
use linyaps.Prelude.{refl, true, false, some, [], ◌∷◌, codes, text_eq}
use linyaps.Repo.Config.{RepoConfigV2}
use linyaps.Repo.Cache.{no_rename}
use linyaps.Repo.Update.{
  ConfigState, Calls, RemoteSteps, added_only, all_updated, remotes_of, set_config, update_config,
}
use linyaps.Repo.Update.Outcome.{
  IsStored, IsConfigured, IsUpdated, set_config-IsConfigured, update_config-IsUpdated,
}
use linyaps.Samples.Repos.{nightly, config, repo_cache}

abbrev state : ConfigState
state = record {
  cfg = config;
  file = some config;
  remotes = remotes_of config.repos;
  cache = repo_cache;
  server = codes "https://a";
}

abbrev calls : RemoteSteps → Calls
calls steps = record {
  opens = true;
  written = λ c. some c;
  steps = steps;
  opens_back = true;
  written_back = λ c. some c;
  steps_back = all_updated;
  ll_version = codes "1.9";
  disk = no_rename;
  is_root = false;
  refs = some [];
}

abbrev new_config : RepoConfigV2
new_config = record { default_repo = codes "n"; repos = nightly ∷ []; version = 2 }

state-IsStored : IsStored state
unfolding text_eq
state-IsStored = (refl, refl, refl)

set_config-IsSet_example :
    IsConfigured
      (calls all_updated)
      new_config
      state
      (set_config (calls all_updated) new_config state)
set_config-IsSet_example =
    set_config-IsConfigured (calls all_updated) refl (λ c. refl) refl new_config state
      state-IsStored

update_config-IsUpdated_example :
    IsUpdated
      (calls (added_only 0))
      new_config
      state
      (update_config (calls (added_only 0)) new_config state)
update_config-IsUpdated_example =
    update_config-IsUpdated (calls (added_only 0)) refl (λ c. refl) refl new_config state
      state-IsStored
