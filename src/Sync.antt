-- ===== src/Sync.antt =====
-- sync.py: the stages of a run.
pub mod Collect
pub mod Enrich
pub mod Owners
pub mod Payloads
pub mod Run
pub mod Write
pub mod Retire
