-- ===== src/Repo.antt =====
-- libs/linglong/src/linglong/repo: the configuration of repositories, the cache of installed layers,
-- and how references are resolved.
pub mod Config
pub mod Cache
pub mod Remote
pub mod Resolve
pub mod Store
pub mod Modules
pub mod Merge
pub mod Update
