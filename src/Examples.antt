-- ===== src/Examples.antt =====
-- Sample rows on which the statements of the development are tried.
mod Scores
mod Callbacks
mod Dispatches
mod Containers
mod Platforms
mod Teams
mod Datasets
mod Searches
mod Beats
mod Logins
mod Operators
mod Queues
use jg_smm.Prelude.{ℕ, List, [], ◌∷◌, none, some}
use jg_smm.Prelude.Int.{pos}
use jg_smm.Domain.Status.{
  instagram, AuthStatus, AccountStatus, WorkerStatus, DesiredState, WorkerSource, JobType,
  JobStatus,
}
use jg_smm.Domain.Role.{owner}
use jg_smm.Domain.Content.{Content}
use jg_smm.Domain.Entities.{Account, Worker, ActionJob, User}
use jg_smm.Store.{Db}

abbrev pub sample_account : Account
sample_account = record {
  id = 7;
  platform = instagram;
  username = "demo";
  auth_status = AuthStatus.authenticated;
  handle = none;
  last_verified = none;
  proxy_group_id = none;
  health_score = pos 100;
  status = AccountStatus.active;
  tags = [];
  worker_id = some 3;
  last_used_at = none;
  last_checked = none;
  last_error = none;
  created_at = 1;
}

abbrev pub sample_worker : Worker
sample_worker = record {
  id = 3;
  name = "smm-a";
  container_id = none;
  novnc_service = some "http://localhost:24100";
  desired_state = DesiredState.running;
  source = WorkerSource.auto;
  region = "ID";
  location = none;
  status = WorkerStatus.pending;
  generation = 1;
  observed_gen = none;
  browser_status = "";
  current_job_id = none;
  last_heartbeat = none;
  queue_depth = 0;
  restart_count = 0;
  created_at = 1;
}

abbrev pub sample_job : ActionJob
sample_job = record {
  id = 5;
  type = JobType.action_like;
  target_id = 2;
  account_id = 7;
  worker_id = 0;
  template_id = 0;
  status = JobStatus.running;
  scheduled_at = 10;
  started_at = some 10;
  finished_at = none;
  attempts = 1;
  error = none;
  created_at = 1;
}

abbrev pub sample_owner : User
sample_owner = record { id = 1; email = "o@example.org"; name = "O"; role = owner; created_at = 1 }

abbrev pub no_content : Content
no_content = record {
  posts = [];
  comments = [];
  snapshots = [];
  runs = [];
  payloads = [];
  keyword_batches = [];
  batch_posts = [];
}

abbrev pub sample_db : Db
sample_db = record {
  accounts = sample_account ∷ [];
  workers = sample_worker ∷ [];
  jobs = sample_job ∷ [];
  logs = [];
  users = sample_owner ∷ [];
  sessions = [];
  heartbeats = [];
  scrape_jobs = [];
  targets = [];
  texts = [];
  batches = [];
  proxy_groups = [];
  content = no_content;
  frames = [];
  orders = [];
  now = 1_000;
  faults = [];
}
