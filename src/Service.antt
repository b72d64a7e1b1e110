-- ===== src/Service.antt =====
-- libs/linglong/src/linglong/package_manager: the tasks of the package manager.
pub mod Task
pub mod Queue
