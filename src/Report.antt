-- ===== src/Report.antt =====
-- cmdb_report.py: reads of a CMDB table for people, and what is worth a second look in them.
pub mod Fetch
pub mod Analyze
