-- ===== src/Writers.antt =====
-- servicenow/writers: the two ways to write CIs, and the errors that both read.
pub mod Errors
pub mod Types
pub mod Ire
pub mod Instance
pub mod Source
pub mod Simulation
pub mod Access
