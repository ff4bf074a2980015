-- ===== src/History.antt =====
-- chic/history: the local snapshot history.
pub mod Days
pub mod Store
pub mod Snapshot
mod Tests
