-- ===== src/Jobs/Schedule.antt =====
-- The entries of chic/jobs/base.py and the schedule of chic/jobs/schedule.py. A job's function is
-- known by its module.
use chic_mcp.Prelude.{List, [], ◌∷◌, String}

-- `digest.run` or `snapshot.run`
pub data Task : Type 0 where
  snapshot digest : Task

-- `ScheduledJob`
pub record ScheduledJob : Type 0 where
  pub id : String
  pub cron : String
  pub func : Task

-- `SCHEDULE`
abbrev pub schedule : List ScheduledJob
schedule =
    record { id = "snapshot"; cron = "0 3 * * *"; func = snapshot }
    ∷ record { id = "digest"; cron = "0 8 * * *"; func = digest }
    ∷ []
