-- ===== src/Graph.antt =====
-- graph.py: the reads of Microsoft Graph.
pub mod Devices
pub mod Pages
pub mod Users
pub mod Attributes
pub mod Batch
