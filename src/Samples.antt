-- ===== src/Samples.antt =====
-- Concrete functions in place of the parameters, and the theorems at concrete inputs.
pub mod QtTexts
pub mod Precedence
pub mod Versions
pub mod References
pub mod Repos
pub mod Tasks
pub mod Stores
pub mod Configs
pub mod Runs
