-- ===== src/Aggregate/Models.antt =====
-- chic/aggregate/models.py: what the reports return, as records.
pub mod Lines
pub mod Totals
pub mod Findings
pub mod Bridges
pub mod Papers
pub mod Plans
