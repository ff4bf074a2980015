-- ===== src/Aggregate/Report.antt =====
-- chic/aggregate/report.py: rows of the API to lines, and the reports over them.
pub mod Rows
pub mod Reports
pub mod Stores
pub mod Totals
