-- ===== src/Jobs/Scheduler/Current.antt =====
-- A start leaves the jobs of the code's schedule, whatever the job store kept.
use chic_mcp.Prelude.{
  ◌≡◌, refl, sym, ap, ◌∙◌, Bool, true, false, Option, none, some, List, [], ◌∷◌, map, String, ◌==◌,
  string_eq, if◌then◌else◌, Bool-cases, inl, inr, arith,
}
use chic_mcp.Prelude.Sets.{contains, contains-add}
use chic_mcp.Jobs.Schedule.{ScheduledJob}
use chic_mcp.Jobs.Scheduler.{
  Job, has, Backend, Scheduler, job_of, init, register, remove_stale, reconcile, start, job_ids,
}

-- The job that an id has after the entries: that of the last one with this id, or an old one
abbrev pub last_job : String → List ScheduledJob → String → Option Job → Option Job
last_job timezone [] i old = old
last_job timezone (job ∷ jobs) i old =
    last_job timezone jobs i (if job.id == i then some (job_of timezone job) else old)

abbrev pub ids : List ScheduledJob → List String
ids jobs = map (λ (j : ScheduledJob). j.id) jobs

last_job-listed :
    (timezone : String) (jobs : List ScheduledJob) (i : String) (old : Option Job)
    → contains (ids jobs) i ≡ true
    → last_job timezone jobs i old ≡ last_job timezone jobs i none
unfolding contains
last_job-listed timezone [] i old h = absurd (cc)
last_job-listed timezone (job ∷ jobs) i old h = elim (Bool-cases (job.id == i)) [
  | inl same ↦ rw same refl
  | inr other ↦ rw other (last_job-listed timezone jobs i old (rw other at h))
]

last_job-missing :
    (timezone : String) (jobs : List ScheduledJob) (i : String)
    → contains (ids jobs) i ≡ false
    → last_job timezone jobs i none ≡ none
unfolding contains
last_job-missing timezone [] i h = refl
last_job-missing timezone (job ∷ jobs) i h = elim (Bool-cases (job.id == i)) [
  | inl same ↦ absurd (cc (rw same at h))
  | inr other ↦ rw other (last_job-missing timezone jobs i (rw other at h))
]

has-last_job :
    (timezone : String) (jobs : List ScheduledJob) (i : String) (old : Option Job)
    → has (last_job timezone jobs i old) ≡ (if contains (ids jobs) i then true else has old)
unfolding contains
has-last_job timezone [] i old = refl
has-last_job timezone (job ∷ jobs) i old = elim (Bool-cases (job.id == i)) [
  | inl same ↦ rw same (has-last_job timezone jobs i _ ∙ ground arith)
  | inr other ↦ rw other (has-last_job timezone jobs i old)
]

if_listed :
    (timezone : String) (jobs : List ScheduledJob) (i : String) (old : Option Job)
    → (if (if contains (ids jobs) i then true else false)
        then last_job timezone jobs i old
        else none)
      ≡ last_job timezone jobs i none
if_listed timezone jobs i old = elim (Bool-cases (contains (ids jobs) i)) [
  | inl listed ↦ rw listed (last_job-listed timezone jobs i old listed)
  | inr missing ↦ rw missing (sym (last_job-missing timezone jobs i missing))
]

if_true : (b : Bool) → (if b then true else false) ≡ b
if_true b = ground arith

module _ (b : Backend) where
  open b use {
    S, find, is_running, remove_job, get_jobs, find-add_job, find-start, find-remove_job,
    start_runs, remove_job_runs, get_jobs-find,
  }

  register-find :
      (timezone : String) (jobs : List ScheduledJob) (s : Scheduler b) (i : String)
      → find (register b timezone jobs s).sched i ≡ last_job timezone jobs i (find s.sched i)
  unfolding register job_of
  register-find timezone [] s i = refl
  register-find timezone (job ∷ jobs) s i =
      register-find timezone jobs _ i
      ∙ ap (last_job timezone jobs i) (find-add_job (job_of timezone job) s.sched i)

  register-wanted :
      (timezone : String) (jobs : List ScheduledJob) (s : Scheduler b) (i : String)
      → contains (register b timezone jobs s).wanted i
        ≡ (if contains (ids jobs) i then true else contains s.wanted i)
  unfolding register contains
  register-wanted timezone [] s i = refl
  register-wanted timezone (job ∷ jobs) s i =
      register-wanted timezone jobs _ i ∙ ground (arith, contains-add job.id i s.wanted)

  -- A job stays if it is wanted, or was not listed.
  remove_stale-find :
      (wanted is : List String) (s : S) (i : String)
      → find (remove_stale b wanted is s) i
        ≡ (if contains wanted i then find s i else if contains is i then none else find s i)
  unfolding remove_stale contains
  remove_stale-find wanted [] s i = ground arith
  remove_stale-find wanted (j ∷ is) s i = elim (Bool-cases (contains wanted j)) [
    | inl kept ↦ rw kept (remove_stale-find wanted is s i ∙ ground (arith, string_eq.same_iff j i))
    | inr stale ↦
        rw (stale, remove_stale-find wanted is (remove_job j s) i, find-remove_job j s i)
          (ground (arith, string_eq.same_iff j i))
  ]

  remove_stale_runs :
      (wanted is : List String) (s : S) → is_running (remove_stale b wanted is s) ≡ is_running s
  unfolding remove_stale
  remove_stale_runs wanted [] s = refl
  remove_stale_runs wanted (j ∷ is) s = elim (Bool-cases (contains wanted j)) [
    | inl kept ↦ rw kept (remove_stale_runs wanted is s)
    | inr stale ↦ rw stale (remove_stale_runs wanted is (remove_job j s) ∙ remove_job_runs j s)
  ]

  reconcile-find :
      (s : Scheduler b) (i : String)
      → is_running s.sched ≡ true
      → find (reconcile b s).sched i ≡ (if contains s.wanted i then find s.sched i else none)
  unfolding reconcile
  reconcile-find s i h =
      remove_stale-find s.wanted (get_jobs s.sched) s.sched i
      ∙ rw (get_jobs-find s.sched i h) (if_has (find s.sched i) (contains s.wanted i))
    where
      if_has :
          (o : Option Job) (w : Bool)
          → (if w then o else if has o then none else o) ≡ (if w then o else none)
      if_has none w = ground arith
      if_has (some j) w = refl

  start-find :
      (s : Scheduler b) (i : String)
      → find (start b s).sched i ≡ (if contains s.wanted i then find s.sched i else none)
  unfolding start
  start-find s i =
      reconcile-find (record { wanted = s.wanted; sched = Backend.start b s.sched }) i
        (start_runs s.sched)
      ∙ rw (find-start s.sched i) refl

  start_runs_on : (s : Scheduler b) → is_running (start b s).sched ≡ true
  unfolding start reconcile
  start_runs_on s =
      remove_stale_runs s.wanted (get_jobs (Backend.start b s.sched)) (Backend.start b s.sched)
      ∙ start_runs s.sched

  -- After a start, an id has the job of the last entry of the schedule with this id, in the
  -- scheduler's time zone, or none if the schedule has no such entry, and the ids of the scheduler
  -- are those of the schedule: whatever jobs the store kept, of this schedule or of another.
  pub start-Current :
      (timezone : String) (jobs : List ScheduledJob) (kept : S) (i : String)
      → (find (start b (register b timezone jobs (init b kept))).sched i
          ≡ last_job timezone jobs i none)
        × (contains (job_ids b (start b (register b timezone jobs (init b kept)))) i
            ≡ contains (ids jobs) i)
  unfolding start init job_ids reconcile contains
  start-Current timezone jobs kept i =
      let s = register b timezone jobs (init b kept) in
      let found =
        start-find s i
        ∙ rw
            (
              register-wanted timezone jobs (init b kept) i,
              register-find timezone jobs (init b kept) i,
            )
            (if_listed timezone jobs i (find kept i)) in
      (
        found,
        get_jobs-find (start b s).sched i (start_runs_on s)
            ∙ ap has found
            ∙ has-last_job timezone jobs i none
            ∙ if_true (contains (ids jobs) i),
      )
