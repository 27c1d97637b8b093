-- ===== src/Config.antt =====
-- config.py and secrets.py: the configuration of a run, read of the environment. The environment is a
-- dictionary; what files, the parameter store and the JSON parser give are parameters.
pub mod Env
pub mod Floats
pub mod Graph
pub mod Checks
pub mod Snow
pub mod Runtime
pub mod Build
