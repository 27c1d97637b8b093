-- ===== src/References.antt =====
-- reference_resolver.py: names of manufacturers and models become sys_ids, looked up once and kept,
-- and created when the configuration allows it.
pub mod Lookup
pub mod Names
pub mod Ids
pub mod Device
