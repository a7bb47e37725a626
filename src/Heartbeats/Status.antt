-- ===== src/Heartbeats/Status.antt =====
-- job.go, `heartbeatStatus`: which states a heartbeat leaves a worker in.
use jg_smm.Prelude.{ℕ, ◌≡◌, ◌↔◌, true, false, Option, none, some, String, arith}
use jg_smm.Domain.Status.{WorkerStatus, busy}
use jg_smm.Heartbeats.{heartbeat_status, says_error, has_job, is_stale_status}

-- A heartbeat whose browser reports no error never leaves a worker PENDING, in ERROR or DEAD; leaves
-- it BUSY exactly when it names a job, whatever the state was; and, sent again, changes nothing.
pub heartbeat_status_lem :
    (s : WorkerStatus) (browser : String) (job : Option ℕ)
    → says_error browser ≡ false
    → (is_stale_status (heartbeat_status s browser job) ≡ false)
      × ((heartbeat_status s browser job ≡ busy) ↔ (has_job job ≡ true))
      × (heartbeat_status (heartbeat_status s browser job) browser job
          ≡ heartbeat_status s browser job)
unfolding heartbeat_status
heartbeat_status_lem s browser none e = ground (arith, e)
heartbeat_status_lem s browser (some j) e = ground (arith, e)
