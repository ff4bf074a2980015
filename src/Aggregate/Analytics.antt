-- ===== src/Aggregate/Analytics.antt =====
-- chic/aggregate/analytics.py, one module for each analysis.
pub mod Abc
pub mod Segments
pub mod DeadStock
pub mod Compare
pub mod Aging
