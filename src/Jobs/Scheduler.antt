-- ===== src/Jobs/Scheduler.antt =====
-- `Scheduler` of chic/scheduler.py over APScheduler, which is an interface: its operations, and what
-- it promises of the job with an id.
pub mod Current
use chic_mcp.Prelude.{
  ℕ, ◌≡◌, Bool, true, false, Option, none, some, List, [], ◌∷◌, map, String, ◌==◌, string_eq,
  if◌then◌else◌,
}
use chic_mcp.Prelude.Sets.{contains, add}
use chic_mcp.Jobs.Schedule.{Task, ScheduledJob}

-- What `add_job` is given
pub record Job : Type 0 where
  pub id : String
  pub cron : String
  pub timezone : String
  pub func : Task
  pub misfire_grace_time : ℕ
  pub coalesce : Bool
  pub max_instances : ℕ

abbrev pub has : Option Job → Bool
has none = false
has (some j) = true

-- An AsyncIOScheduler with its job store. `find` is the job of an id, stored or pending; a running
-- scheduler lists just the jobs that can be found.
pub record Backend : Type 1 where
  pub S : Type 0
  pub add_job : Job → S → S
  pub start : S → S
  pub remove_job : String → S → S
  pub get_jobs : S → List String
  pub find : S → String → Option Job
  pub is_running : S → Bool
  pub find-add_job :
      (j : Job) (s : S) (i : String)
      → find (add_job j s) i ≡ (if j.id == i then some j else find s i)
  pub find-start : (s : S) (i : String) → find (start s) i ≡ find s i
  pub find-remove_job :
      (j : String) (s : S) (i : String)
      → find (remove_job j s) i ≡ (if j == i then none else find s i)
  pub start_runs : (s : S) → is_running (start s) ≡ true
  pub remove_job_runs : (j : String) (s : S) → is_running (remove_job j s) ≡ is_running s
  pub get_jobs-find :
      (s : S) (i : String) → is_running s ≡ true → contains (get_jobs s) i ≡ has (find s i)

-- `self._wanted` and `self._sched`
pub record Scheduler (b : Backend) : Type 0 where
  pub wanted : List String
  pub sched : Backend.S b

-- The job that `register` makes of an entry
unfoldable pub job_of : String → ScheduledJob → Job
job_of timezone job = record {
  id = job.id;
  cron = job.cron;
  timezone = timezone;
  func = job.func;
  misfire_grace_time = 3600;
  coalesce = true;
  max_instances = 1;
}

module _ (b : Backend) where
  open b use {S, add_job, start as start_backend, remove_job, get_jobs}

  -- `Scheduler.__init__`, over what the job store kept
  unfoldable pub init : S → Scheduler b
  init s = record { wanted = []; sched = s }

  -- `Scheduler.register`
  unfoldable pub register : String → List ScheduledJob → Scheduler b → Scheduler b
  unfolding job_of
  register timezone [] s = s
  register timezone (job ∷ jobs) s =
      register timezone jobs
        (record { wanted = add job.id s.wanted; sched = add_job (job_of timezone job) s.sched })

  -- The loop of `_reconcile`
  remove_stale : List String → List String → S → S
  remove_stale wanted [] s = s
  remove_stale wanted (i ∷ is) s =
      remove_stale wanted is (if contains wanted i then s else remove_job i s)

  -- `Scheduler._reconcile`
  unfoldable pub reconcile : Scheduler b → Scheduler b
  unfolding remove_stale
  reconcile s = record {
    wanted = s.wanted;
    sched = remove_stale s.wanted (get_jobs s.sched) s.sched;
  }

  -- `Scheduler.start`
  unfoldable pub start : Scheduler b → Scheduler b
  start s = reconcile (record { wanted = s.wanted; sched = start_backend s.sched })

  -- `Scheduler.job_ids`
  unfoldable pub job_ids : Scheduler b → List String
  job_ids s = get_jobs s.sched
