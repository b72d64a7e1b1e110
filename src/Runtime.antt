-- ===== src/Runtime.antt =====
-- libs/linglong/src/linglong/runtime and extension: the layers that are put together for a run.
pub mod Extension
pub mod Environment
pub mod Layer
pub mod Layers
pub mod RunContext
pub mod Mounts
pub mod Store
