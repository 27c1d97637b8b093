-- ===== src/Users.antt =====
-- user_resolver.py: matching the Entra owners of devices with `sys_user` records. Its parts: the
-- values by which a user is looked for, the match by one key, and the resolution over all keys.
pub mod Candidates
pub mod Match
pub mod Resolve
