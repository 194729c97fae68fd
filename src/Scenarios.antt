-- ===== src/Scenarios.antt =====
-- Runs of the model on a storage that is a list of entries and never fails.
pub mod Configs
pub mod Sweeps
pub mod Associations
pub mod Destinations
pub mod Memory
pub mod Runs
pub mod Claims
pub mod Writes
pub mod Recoveries
pub mod Deletions
pub mod Names
