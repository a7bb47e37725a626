-- ===== src/Store/Workers.antt =====
-- apps/api/internal/repository/worker.go with its queries (apps/api/db/queries/worker.sql), and the
-- page bounds of repository/convert.go. The rows of `workers` stand in the order of the listing,
-- newest first.
pub mod Claiming
pub mod Owners
use jg_smm.Prelude.{
  Option, ◌++◌, ℕ, Bool, true, false, ◌||◌, not, ◌==◌, ltb, if◌then◌else◌, List, [], ◌∷◌, none,
  some, find, keep, any, take, String,
}
use jg_smm.Prelude.Table.{update_where}
use jg_smm.Prelude.Text.{codes}
use jg_smm.Domain.Status.{WorkerStatus, is_running}
use jg_smm.Domain.Entities.{Worker, Heartbeat}
use jg_smm.Store.{Db, M, ok, err, not_found, conflict, driver, query, low_32, is_negative_32, ◌>>◌}
use jg_smm.Store.Accounts.{has_worker_id, is_on, unassigned}

-- `pageBounds`: a limit of 0 or over 200 becomes 100.
unfoldable pub page_limit : ℕ → ℕ
page_limit limit = if limit == 0 || ltb 200 limit then 100 else limit

unfoldable pub get_by_id : ℕ → M Worker
get_by_id i = query λ db. elim (find (has_worker_id i) db.workers) [
  | none ↦ (err not_found, db)
  | some w ↦ (ok w, db)
]

-- `List` with the filter on `DesiredState`, which is applied after the page is cut.
unfoldable pub list : (Worker → Bool) → ℕ → M (List Worker)
unfolding page_limit
list filter limit = query λ db. (ok (keep filter (take (page_limit limit) db.workers)), db)

abbrev pub everyone : Worker → Bool
everyone w = true

abbrev pub wants_to_run : Worker → Bool
wants_to_run w = is_running w.desired_state

-- `UpdateWorker` sets the runtime columns from the value that the caller holds.
abbrev pub overwrite : Worker → Worker → Worker
overwrite new old = record old {
  container_id = new.container_id;
  desired_state = new.desired_state;
  status = new.status;
  generation = new.generation;
  observed_gen = new.observed_gen;
  browser_status = new.browser_status;
  current_job_id = new.current_job_id;
  last_heartbeat = new.last_heartbeat;
  queue_depth = new.queue_depth;
  restart_count = new.restart_count;
}

unfoldable pub update : Worker → M Worker
unfolding update_where
update w = query λ db. elim (find (has_worker_id w.id) db.workers) [
  | none ↦ (err not_found, db)
  | some old ↦ (
    ok (overwrite w old),
    record db { workers = update_where (has_worker_id w.id) (overwrite w) db.workers },
  )
]

abbrev pub lacks_worker_id : ℕ → Worker → Bool
lacks_worker_id i w = not (w.id == i)

-- A deleted worker leaves its accounts with no container (ON DELETE SET NULL).
unfoldable pub delete : ℕ → M (Unit {0})
unfolding update_where
delete i = query λ db. (
  ok tt,
  record db {
    workers = keep (lacks_worker_id i) db.workers;
    accounts = update_where (is_on i) unassigned db.accounts;
  },
)

abbrev pub same_text : List ℕ → List ℕ → Bool
same_text [] [] = true
same_text [] (c ∷ t) = false
same_text (c ∷ s) [] = false
same_text (c ∷ s) (d ∷ t) = elim (c == d) [ true ↦ same_text s t | false ↦ false ]

abbrev pub has_name : String → Worker → Bool
has_name name w = same_text (codes w.name) (codes name)

-- `Create`: the database chooses the id; a name that is taken is a conflict. The new row heads the
-- listing.
unfoldable pub create : (Db → ℕ) → Worker → M Worker
create new_id w = query λ db. if any (has_name w.name) db.workers then (err conflict, db) else (
  ok (record w { id = new_id db }),
  record db { workers = record w { id = new_id db } ∷ db.workers },
)

abbrev pub has_container : String → Worker → Bool
has_container name w = elim w.container_id [
  | none ↦ false
  | some c ↦ same_text (codes c) (codes name)
]

unfoldable pub get_by_container_id : String → M Worker
get_by_container_id name = query λ db. elim (find (has_container name) db.workers) [
  | none ↦ (err not_found, db)
  | some w ↦ (ok w, db)
]

-- `port.WorkerSnapshot`, what a heartbeat says of the row.
pub record Snapshot : Type 0 where
  pub status : WorkerStatus
  pub browser_status : String
  pub queue_depth : ℕ
  pub current_job_id : Option ℕ
  pub novnc_url : Option String

-- `TouchWorkerHeartbeat` sets every one of its columns, an absent URL included; the queue depth is an
-- `int32`, which the check of the column refuses where it is negative.
abbrev pub touched : ℕ → Snapshot → Worker → Worker
touched ts snap w = record w {
  last_heartbeat = some ts;
  status = snap.status;
  browser_status = snap.browser_status;
  queue_depth = low_32 snap.queue_depth;
  current_job_id = snap.current_job_id;
  novnc_service = snap.novnc_url;
}

unfoldable pub touch : ℕ → ℕ → Snapshot → M (Unit {0})
unfolding update_where
touch i ts snap = query λ db. elim (find (has_worker_id i) db.workers) [
  | none ↦ (err driver, db)
  | some w ↦ if is_negative_32 snap.queue_depth then (err driver, db) else (
    ok tt,
    record db { workers = update_where (has_worker_id i) (touched ts snap) db.workers },
  )
]

-- A sample refers to its worker by a foreign key, and its count is an `int32` that is not negative.
unfoldable pub insert_heartbeat : Heartbeat → M (Unit {0})
insert_heartbeat hb = query λ db. elim (find (has_worker_id hb.worker_id) db.workers) [
  | none ↦ (err driver, db)
  | some w ↦ if is_negative_32 hb.jobs_done then (err driver, db) else (
    ok tt,
    record db {
      heartbeats = db.heartbeats ++ (record hb { jobs_done = low_32 hb.jobs_done } ∷ []);
    },
  )
]

-- `RecordHeartbeat`: the row first, then the sample.
unfoldable pub record_heartbeat : Heartbeat → Snapshot → M (Unit {0})
unfolding touch
record_heartbeat hb snap = touch hb.worker_id hb.ts snap >> insert_heartbeat hb
