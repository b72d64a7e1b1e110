-- ===== src/Package.antt =====
-- libs/linglong/src/linglong/package: versions, architectures and references of packages.
pub mod Architecture
pub mod Fields
pub mod Reference
pub mod FuzzyReference
pub mod Numeral
pub mod Pattern
pub mod VersionV1
pub mod FallbackVersion
pub mod VersionV2
pub mod Mixed
pub mod Info
pub mod Version
