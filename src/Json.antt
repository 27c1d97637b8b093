-- ===== src/Json.antt =====
-- The values that Python code reads from and writes to JSON, with truth, `.get`, `or` and `str()`.
pub mod Value
pub mod Show
pub mod Number
