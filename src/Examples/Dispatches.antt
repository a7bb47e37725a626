-- ===== src/Examples/Dispatches.antt =====
-- A dispatch of the sample job through ports that accept everything.
use jg_smm.Prelude.{List, [], ◌∷◌, none, some, true, false}
use jg_smm.Store.{ok}
use jg_smm.Domain.Status.{JobStatus}
use jg_smm.Store.{Db}
use jg_smm.Scheduler.{Ports, Config, Sched, WorkerActionJob}
use jg_smm.Scheduler.Outcome.{Outcome}
use jg_smm.Examples.{sample_job, sample_db}

-- The state outside the database is the list of the messages sent.
abbrev open_ports : Ports (List WorkerActionJob)
open_ports = record {
  get_target = λ i g. (ok "https://example.org/p/1", g);
  get_text = none;
  pick = none;
  acquire = some (λ a url t p g. (ok true, g));
  allow = some (λ p a n t g. (ok (true, 0), g));
  enqueue = some (λ w m g. (ok tt, m ∷ g));
  is_blank = λ s. false;
  describe = λ prefix e. prefix;
}

abbrev sample_config : Config
sample_config = record {
  tick_budget = 20;
  cooldown = 60_000_000_000;
  account_pace = 0;
  rate_window = 3_600_000_000_000;
  rate_limits = λ p. 30;
}

abbrev sample_sched : Sched (List WorkerActionJob)
sample_sched = record { db = sample_db; outside = [] }

abbrev waiting_db : Db
waiting_db = record sample_db { jobs = record sample_job { status = JobStatus.pending } ∷ [] }
