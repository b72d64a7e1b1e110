-- ===== src/Repo/Update/Outcome.antt =====
-- repo/ostree_repo.cpp: what `setConfig` and `updateConfig` leave behind.
use linyaps.Prelude.{
  ◌≡◌, refl, sym, ap, subst, ◌∙◌, Bool, true, false, Option, none, some, List, Text, any, arith,
  ◌⊎◌, inl, inr,
}
use linyaps.Error.{Error, Result, ok, err, Result-cases}
use linyaps.Repo.Config.{RepoConfigV2, called, save_config}
use linyaps.Repo.Cache.{
  RepoCache, RefEntry, Disk, no_parent, no_temp_file, no_rename, no_version_file, all_written,
  unchecked, rebuild_cache,
}
use linyaps.Utils.Transaction.{Transaction, empty, add_roll_back, destroy}
use linyaps.Repo.Update.{
  ConfigState, RemoteSteps, deleted_only, added_only, not_written, all_updated, remotes_of,
  update_ostree_repo_config, Calls, restore_file, restore_remotes, Outcome, finish_set,
  after_remotes, finish_update, set_config, update_config, Remote,
}

-- The file holds this, and the remotes are those of the configuration in memory, which has a default
-- repository.
abbrev pub IsStoredAs : Option RepoConfigV2 → ConfigState → Type 0
IsStoredAs file s =
    (s.file ≡ file)
    × (s.remotes ≡ remotes_of s.cfg.repos)
    × (any (called s.cfg.default_repo) s.cfg.repos ≡ true)

-- The file and the remotes are those of the configuration in memory.
abbrev pub IsStored : ConfigState → Type 0
IsStored s = IsStoredAs (some s.cfg) s

-- A failure leaves what was, but for the remotes, which are half changed if changing them failed.
abbrev pub IsConfigured : Calls → RepoConfigV2 → ConfigState → Outcome → Type 0
IsConfigured calls cfg s (ok done, after) =
    IsStoredAs (calls.written cfg) after × (after.cfg ≡ cfg) × (after.cache.cache.config ≡ cfg)
IsConfigured calls cfg s (err e, after) =
    (after.cfg ≡ s.cfg)
    × (after.file ≡ s.file)
    × (after.server ≡ s.server)
    × ((after.remotes ≡ s.remotes)
        ⊎ (update_ostree_repo_config calls.steps cfg s.remotes ≡ (err e, after.remotes)))

-- A failure leaves what was, but for the file, once it was written.
abbrev pub IsUpdated : Calls → RepoConfigV2 → ConfigState → Outcome → Type 0
IsUpdated calls cfg s (ok done, after) =
    IsStoredAs (calls.written cfg) after × (after.cfg ≡ cfg) × (after.cache ≡ s.cache)
IsUpdated calls cfg s (err e, after) =
    (after.cfg ≡ s.cfg)
    × (after.remotes ≡ s.remotes)
    × (after.server ≡ s.server)
    × (after.cache ≡ s.cache)
    × ((after.file ≡ s.file)
        ⊎ (save_config cfg calls.opens ≡ ok cfg) × (after.file ≡ calls.written cfg))

save_config-ok :
    (cfg : RepoConfigV2)
    → any (called cfg.default_repo) cfg.repos ≡ true
    → save_config cfg true ≡ ok cfg
unfolding save_config
save_config-ok cfg h = rw h refl

save_config-eq :
    (cfg saved : RepoConfigV2) (opens : Bool)
    → save_config cfg opens ≡ ok saved
    → (cfg ≡ saved) × (any (called cfg.default_repo) cfg.repos ≡ true)
unfolding save_config
save_config-eq cfg saved opens h = (ground (arith, h), ground (arith, h))

rebuild_cache-config :
    (v : Text) (disk : Disk) (is_root : Bool) (refs : Option (List RefEntry)) (cfg : RepoConfigV2)
    (c : RepoCache)
    → (rebuild_cache v disk is_root refs cfg c).1.cache.config ≡ cfg
unfolding rebuild_cache linyaps.Repo.Cache.write_to_disk
rebuild_cache-config v disk is_root none cfg c = refl
rebuild_cache-config v disk true (some entries) cfg c = refl
rebuild_cache-config v no_parent false (some entries) cfg c = refl
rebuild_cache-config v no_temp_file false (some entries) cfg c = refl
rebuild_cache-config v no_rename false (some entries) cfg c = refl
rebuild_cache-config v no_version_file false (some entries) cfg c = refl
rebuild_cache-config v all_written false (some entries) cfg c = refl
rebuild_cache-config v (unchecked whole tag) false (some entries) cfg c = refl

err-ok : {e : Error} {done : Unit {0}} → err e ≡ ok done → ⊥
err-ok h = cc

update-remotes :
    (steps : RemoteSteps) (cfg : RepoConfigV2) (before after : List Remote) (done : Unit {0})
    → update_ostree_repo_config steps cfg before ≡ (ok done, after)
    → after ≡ remotes_of cfg.repos
unfolding update_ostree_repo_config
update-remotes (deleted_only n) cfg before after done h = absurd (err-ok (ap (λ p. p.0) h))
update-remotes (added_only n) cfg before after done h = absurd (err-ok (ap (λ p. p.0) h))
update-remotes not_written cfg before after done h = absurd (err-ok (ap (λ p. p.0) h))
update-remotes all_updated cfg before after done h = sym (ap (λ p. p.1) h)

module _ (calls : Calls) (opens_back : calls.opens_back ≡ true)
    (written_back : (c : RepoConfigV2) → calls.written_back c ≡ some c)
    (steps_back : calls.steps_back ≡ all_updated) where
  -- With rollbacks that work, the file and the remotes are those of the configuration in memory.
  restore_file-eq :
      (s : ConfigState)
      → any (called s.cfg.default_repo) s.cfg.repos ≡ true
      → restore_file calls s ≡ record s { file = some s.cfg }
  unfolding restore_file
  restore_file-eq s h =
      rw (opens_back, save_config-ok s.cfg h)
        (ap (λ (f : Option RepoConfigV2). record s { file = f }) (written_back s.cfg))

  restore_remotes-eq :
      (s : ConfigState) → restore_remotes calls s ≡ record s { remotes = remotes_of s.cfg.repos }
  unfolding restore_remotes update_ostree_repo_config
  restore_remotes-eq s = rw steps_back refl

  rolled_back :
      (k : ConfigState)
      → any (called k.cfg.default_repo) k.cfg.repos ≡ true
      → restore_file calls (restore_remotes calls k)
        ≡ record k { remotes = remotes_of k.cfg.repos; file = some k.cfg }
  rolled_back k h =
      ap (restore_file calls) (restore_remotes-eq k)
      ∙ restore_file-eq (record k { remotes = remotes_of k.cfg.repos }) h

  module _ (cfg : RepoConfigV2) (s : ConfigState) (stored : IsStored s) where
    abbrev both : Transaction ConfigState
    both = add_roll_back (restore_remotes calls) (add_roll_back (restore_file calls) empty)

    -- The cache is rebuilt, or it is not and both rollbacks run.
    finish_set-IsConfigured :
        any (called cfg.default_repo) cfg.repos ≡ true
        → IsConfigured calls cfg s (
            finish_set calls cfg both
              (record s { file = calls.written cfg; remotes = remotes_of cfg.repos }))
    unfolding finish_set linyaps.Repo.Update.or_roll_back linyaps.Utils.Transaction.add_roll_back
        linyaps.Utils.Transaction.run_back linyaps.Utils.Transaction.destroy
        linyaps.Utils.Transaction.commit
    finish_set-IsConfigured h =
        let rebuilt =
          rebuild_cache calls.ll_version calls.disk calls.is_root calls.refs cfg s.cache in
        let kept : ConfigState = record s {
          file = calls.written cfg;
          remotes = remotes_of cfg.repos;
          cache = rebuilt.1;
        } in
        elim (Result-cases rebuilt.0) [
          | inl (e, k) ↦ rw k (
              subst (λ after. IsConfigured calls cfg s (err e, after))
                (sym (rolled_back kept stored.2)) (refl, sym stored.0, refl, inl (sym stored.1)))
          | inr (done, k) ↦ rw k (
            (refl, refl, h),
            refl,
            rebuild_cache-config calls.ll_version calls.disk calls.is_root calls.refs cfg s.cache,
          )
        ]

    -- The remotes are changed, or they are not and the file is written back.
    after_remotes-IsConfigured :
        (updated : Result (Unit {0}) × List Remote)
        → update_ostree_repo_config calls.steps cfg s.remotes ≡ updated
        → any (called cfg.default_repo) cfg.repos ≡ true
        → IsConfigured calls cfg s (
            after_remotes calls cfg
              (add_roll_back (restore_file calls) empty)
              (record s { file = calls.written cfg })
              updated)
    unfolding after_remotes linyaps.Utils.Transaction.add_roll_back
        linyaps.Utils.Transaction.run_back linyaps.Utils.Transaction.destroy
    after_remotes-IsConfigured (err e, remotes) h k =
        subst (λ after. IsConfigured calls cfg s (err e, after))
          (sym
            (restore_file-eq (record s { file = calls.written cfg; remotes = remotes }) stored.2))
          (refl, sym stored.0, refl, inr h)
    after_remotes-IsConfigured (ok done, remotes) h k =
        subst
          (λ rs.
            IsConfigured calls cfg s
              (finish_set calls cfg both (record s { file = calls.written cfg; remotes = rs })))
          (sym (update-remotes calls.steps cfg s.remotes remotes done h))
          (finish_set-IsConfigured k)

  -- Where the file and the remotes are those of the configuration in memory, which has a default
  -- repository, and the rollbacks work, for any configuration that they write: if `setConfig` succeeds,
  -- the remotes and the cache are those of the new configuration, which is in memory, and the file
  -- holds what it does once that is written to it, which is that configuration unless the text was cut
  -- off; if it fails, the configuration, its file and the server are as they were, and so are the
  -- remotes, unless it is their change that failed: then they stay half changed.
  pub set_config-IsConfigured :
      (cfg : RepoConfigV2) (s : ConfigState)
      → IsStored s
      → IsConfigured calls cfg s (set_config calls cfg s)
  unfolding set_config linyaps.Repo.Update.set_saved
  set_config-IsConfigured cfg s h = elim (Result-cases (save_config cfg calls.opens)) [
    | inl (e, k) ↦ rw k (refl, refl, refl, inl refl)
    | inr (saved, k) ↦
        let (same, default) = save_config-eq cfg saved calls.opens k in
        rw k (
          subst
            (λ c. IsConfigured calls cfg s (
              after_remotes calls cfg (add_roll_back (restore_file calls) empty)
                (record s { file = calls.written c })
                (update_ostree_repo_config calls.steps cfg s.remotes)))
            same
            (after_remotes-IsConfigured cfg s h
              (update_ostree_repo_config calls.steps cfg s.remotes) refl default))
  ]

  finish_update-IsUpdated :
      (cfg : RepoConfigV2) (s : ConfigState) (updated : Result (Unit {0}) × List Remote)
      → IsStored s
      → save_config cfg calls.opens ≡ ok cfg
      → any (called cfg.default_repo) cfg.repos ≡ true
      → update_ostree_repo_config calls.steps cfg s.remotes ≡ updated
      → IsUpdated calls cfg s
          (finish_update calls cfg (record s { file = calls.written cfg }) updated)
  unfolding finish_update linyaps.Utils.Transaction.add_roll_back linyaps.Utils.Transaction.run_back
      linyaps.Utils.Transaction.destroy linyaps.Utils.Transaction.commit
  finish_update-IsUpdated cfg s (err e, remotes) stored k d h =
      subst (λ after. IsUpdated calls cfg s (err e, after))
        (sym (restore_remotes-eq (record s { file = calls.written cfg; remotes = remotes })))
        (refl, sym stored.1, refl, refl, inr (k, refl))
  finish_update-IsUpdated cfg s (ok done, remotes) stored k d h =
      ((refl, update-remotes calls.steps cfg s.remotes remotes done h, d), refl, refl)

  -- Where the file and the remotes are those of the configuration in memory, which has a default
  -- repository, and the rollbacks work, for any configuration that they write: if `updateConfig`
  -- succeeds, the remotes are those of the new configuration, which is in memory, and the file holds
  -- what it does once that is written to it, which is that configuration unless the text was cut off;
  -- if it fails, the configuration, the remotes and the server are as they were; and so is the file,
  -- unless it was written: then it is left as after a success. The cache is left alone.
  pub update_config-IsUpdated :
      (cfg : RepoConfigV2) (s : ConfigState)
      → IsStored s
      → IsUpdated calls cfg s (update_config calls cfg s)
  unfolding update_config linyaps.Repo.Update.update_saved
  update_config-IsUpdated cfg s h = elim (Result-cases (save_config cfg calls.opens)) [
    | inl (e, k) ↦ rw k (refl, refl, refl, refl, inl refl)
    | inr (saved, k) ↦
        let (same, default) = save_config-eq cfg saved calls.opens k in
        let updated = update_ostree_repo_config calls.steps cfg s.remotes in
        rw k (
          subst
            (λ c.
              IsUpdated calls cfg s
                (finish_update calls cfg (record s { file = calls.written c }) updated))
            same (finish_update-IsUpdated cfg s updated h (k ∙ ap ok (sym same)) default refl))
  ]
