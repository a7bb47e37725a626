-- ===== src/Heartbeats.antt =====
-- apps/api/internal/service/job.go, `RecordHeartbeat`, `resolveWorker` and `heartbeatStatus`: what a
-- worker's sign of life does to its row. The stores and the stream are wired. `uuid_value` reads a
-- text as the id of a row, with 0, which is the id of no row, for a text that is no UUID.
pub mod Status
pub mod Rows
pub mod Claims
use jg_smm.Prelude.{ℕ, String, Bool, true, false, if◌then◌else◌, Option, none, some, List}
use jg_smm.Prelude.Text.{codes}
use jg_smm.Domain.Status.{WorkerStatus, pending, ready, idle, busy, error, dead}
use jg_smm.Domain.Entities.{Account, Worker, Heartbeat}
use jg_smm.Store.{
  Db, M, Result, ok, err, not_found, pure, attempt, handle_result, publish, worker_health, ◌>>=◌,
  ◌>>◌,
}
use jg_smm.Store.Accounts.{list_by_worker}
use jg_smm.Store.Workers
use jg_smm.Store.Workers.{same_text, get_by_container_id, Snapshot, record_heartbeat}

pub record HeartbeatRecord : Type 0 where
  pub worker_id : String
  pub browser_status : String
  pub queue_depth : ℕ
  pub current_job_id : Option ℕ
  pub jobs_done : ℕ
  pub novnc_url : Option String

abbrev pub says_error : String → Bool
says_error s = same_text (codes s) (codes "error")

abbrev pub has_job : Option ℕ → Bool
has_job none = false
has_job (some j) = true

-- The states that a heartbeat clears.
abbrev pub is_stale_status : WorkerStatus → Bool
is_stale_status pending = true
is_stale_status WorkerStatus.error = true
is_stale_status WorkerStatus.dead = true
is_stale_status _ = false

abbrev pub rested : WorkerStatus → WorkerStatus
rested busy = idle
rested s = s

unfoldable pub heartbeat_status : WorkerStatus → String → Option ℕ → WorkerStatus
heartbeat_status s browser job =
    if says_error browser
    then WorkerStatus.error
    else if is_stale_status s
    then if has_job job then busy else ready
    else if has_job job
    then busy
    else rested s

abbrev pub default_str : String → String → String
default_str String.[] fallback = fallback
default_str (String.◌∷◌ c s) fallback = String.◌∷◌ c s

abbrev pub snapshot_of : Worker → HeartbeatRecord → Snapshot
unfolding heartbeat_status
snapshot_of w r = record {
  status = heartbeat_status w.status r.browser_status r.current_job_id;
  browser_status = default_str r.browser_status w.browser_status;
  queue_depth = r.queue_depth;
  current_job_id = r.current_job_id;
  novnc_url = r.novnc_url;
}

module _ (uuid_value : String → ℕ) where
  unfoldable pub or_container : String → Result Worker × Db → Result Worker × Db
  or_container name (ok w, db) = (ok w, db)
  or_container name (err not_found, db) = get_by_container_id name db
  or_container name (err e, db) = (err e, db)

  unfoldable pub resolve_worker : String → M Worker
  unfolding or_container
  resolve_worker name db = or_container name (Workers.get_by_id (uuid_value name) db)

  -- The sample names the worker as the heartbeat does, not as the row that was found.
  abbrev pub sample_of : HeartbeatRecord → ℕ → Heartbeat
  sample_of r now = record { worker_id = uuid_value r.worker_id; ts = now; jobs_done = r.jobs_done }

  unfoldable pub record_found : HeartbeatRecord → Worker → M (Unit {0})
  record_found r w db =
      (record_heartbeat (sample_of r db.now) (snapshot_of w r)
          >> attempt (list_by_worker w.id) λ accounts. publish (worker_health w.id))
        db

  -- `RecordHeartbeat` of the service.
  unfoldable pub beat : HeartbeatRecord → M (Unit {0})
  unfolding resolve_worker record_found
  beat r = resolve_worker r.worker_id >>= record_found r
