-- ===== src/Jobs.antt =====
-- chic/jobs and chic/scheduler.py: the scheduled jobs.
pub mod Schedule
pub mod Scheduler
pub mod Digest
pub mod Snapshot
mod Tests
