-- ===== src/Aggregate.antt =====
-- chic/aggregate: what the reports and analyses compute from the API's rows.
mod Tests
pub mod Money
pub mod Models
pub mod Envelope
pub mod Report
pub mod Analytics
pub mod Bridge
pub mod Document
pub mod Purchase
