-- ===== src/Mapping.antt =====
-- mapping.py: one device of Intune becomes the values of a CI.
pub mod Fields
pub mod Sizes
pub mod Values
