-- ===== src/Jobs/Tests.antt =====
-- chic/jobs and chic/scheduler.py: a job store that is a dictionary, and runs at concrete inputs.
use chic_mcp.Prelude.{
  ◌≡◌, refl, Bool, true, false, none, some, List, [], ◌∷◌, map, filter, String, ◌==◌, nat_eq,
  string_eq, if◌then◌else◌, arith,
}
use chic_mcp.Prelude.Int.{pos}
use chic_mcp.Prelude.Dict.{Dict, get, put, remove, get-put, get-remove}
use chic_mcp.Prelude.Sets.{contains}
use chic_mcp.Aggregate.Models.Lines.{DashboardSummary}
use chic_mcp.Jobs.Schedule.{digest, schedule}
use chic_mcp.Jobs.Scheduler.{Job, has, Backend, init, register, start, job_ids}
use chic_mcp.Jobs.Scheduler.Current.{last_job, ids, start-Current}
use chic_mcp.Jobs.Digest.{Context, Delivery, compose, run}
use chic_mcp.Jobs.Digest.Delivered.{reached, run-reached}

abbrev keys : Dict String Job → List String
keys m = map (λ e. e.0) m

contains-keys : (m : Dict String Job) (i : String) → contains (keys m) i ≡ has (get m i)
unfolding contains get
contains-keys [] i = refl
contains-keys ((j, job) ∷ m) i = ground (arith, contains-keys m i)

abbrev memory : Backend
memory = record {
  S = Dict String Job × Bool;
  add_job = λ j s. (put (s.0) j.id j, s.1);
  start = λ s. (s.0, true);
  remove_job = λ i s. (remove (s.0) i, s.1);
  get_jobs = λ s. keys (s.0);
  find = λ s i. get (s.0) i;
  is_running = λ s. s.1;
  find-add_job = λ j s i. get-put (s.0) j.id i j;
  find-start = λ s i. refl;
  find-remove_job = λ j s i. get-remove (s.0) j i;
  start_runs = λ s. refl;
  remove_job_runs = λ j s. refl;
  get_jobs-find = λ s i h. contains-keys (s.0) i;
}

-- A job that an older schedule had
abbrev old_job : Job
old_job = record {
  id = "weekly";
  cron = "0 1 * * 1";
  timezone = "Europe/Moscow";
  func = digest;
  misfire_grace_time = 3600;
  coalesce = true;
  max_instances = 1;
}

abbrev kept : Dict String Job × Bool
kept = (("weekly", old_job) ∷ [], false)

start-Current_example :
    (Backend.find memory
        (start memory (register memory "Europe/Moscow" schedule (init memory kept))).sched
        "weekly"
      ≡ last_job "Europe/Moscow" schedule "weekly" none)
    × (contains
          (job_ids memory
            (start memory (register memory "Europe/Moscow" schedule (init memory kept))))
          "weekly"
        ≡ contains (ids schedule) "weekly")
start-Current_example = start-Current memory "Europe/Moscow" schedule kept "weekly"

abbrev quiet_day : DashboardSummary
quiet_day = record {
  period = "day";
  sales_count = pos 0;
  sales_amount = pos 0;
  sales_delta_vs_prev = pos 0;
  orders_count = pos 0;
  orders_amount = pos 0;
  money_income = pos 0;
  money_outcome = pos 0;
  money_balance = pos 0;
}

-- The second of three recipients has blocked the bot.
abbrev context : Context
context = record {
  dashboard = some quiet_day;
  notify = λ chat text. if chat == 2 then false else true;
  recipients = 1 ∷ 2 ∷ 3 ∷ [];
  currency = "";
}

run-reached_example :
    (ds : List Delivery) × (run (λ amount code. "0") (some context) ≡ some ds)
    × (reached ds
        ≡ filter
            (λ c. context.notify c (compose (λ amount code. "0") quiet_day ""))
            context.recipients)
run-reached_example = run-reached (λ amount code. "0") context quiet_day refl
