-- ===== src/Witnesses.antt =====
-- Concrete runs of the theorems, by part.
pub mod Runs
pub mod Requests
pub mod Stores
pub mod Fields
pub mod Whole
pub mod Owners
pub mod Reads
pub mod Reports
pub mod Settings
pub mod Checks
