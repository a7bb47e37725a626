-- ===== src/Examples/Beats.antt =====
-- Heartbeats on the sample rows.
use jg_smm.Prelude.{ℕ, String, none}
use jg_smm.Heartbeats.{HeartbeatRecord}

abbrev sample_beat : HeartbeatRecord
sample_beat = record {
  worker_id = "w";
  browser_status = "ok";
  queue_depth = 2;
  current_job_id = none;
  jobs_done = 4;
  novnc_url = none;
}

-- One reading of ids under which the heartbeat names the sample row, and one under which it does not.
abbrev as_row : String → ℕ
as_row s = 3

abbrev as_boot_id : String → ℕ
as_boot_id s = 0
