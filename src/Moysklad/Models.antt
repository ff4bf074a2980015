-- ===== src/Moysklad/Models.antt =====
-- chic/moysklad/models.py: what the API sends, as records.
pub mod Entities
pub mod Reports
pub mod Papers
