-- ===== src/Heartbeats/Rows.antt =====
-- job.go, `RecordHeartbeat`: the rows that a heartbeat writes.
use jg_smm.Prelude.{◌⊎◌, ℕ, ◌≡◌, refl, ◌∙◌, ◌++◌, false, [], ◌∷◌, none, some, String, arith, find}
use jg_smm.Prelude.Table.{update_where}
use jg_smm.Users.{is_empty}
use jg_smm.Domain.Status.{WorkerStatus, pending, ready, idle, busy}
use jg_smm.Domain.Entities.{Worker}
use jg_smm.Store.{low_32, Db, M, Result, ok, err, not_found, is_ok, bind_result, worker_health}
use jg_smm.Store.Accounts.{has_worker_id}
use jg_smm.Store.Workers
use jg_smm.Store.Workers.{get_by_container_id, Snapshot, touched, touch, record_heartbeat}
use jg_smm.Heartbeats.{
  says_error, HeartbeatRecord, snapshot_of, or_container, resolve_worker, record_found, beat,
}

module _ (uuid_value : String → ℕ) (r : HeartbeatRecord) where
  touch-fails :
      (i ts : ℕ) (snap : Snapshot) (db : Db)
      → find (has_worker_id i) db.workers ≡ none
      → is_ok (touch i ts snap db).0 ≡ false
  unfolding touch
  touch-fails i ts snap db h = ground (arith, h)

  bind-fails :
      {A B : Type 0} (x : Result A × Db) (f : A → M B)
      → is_ok x.0 ≡ false
      → is_ok (bind_result x f).0 ≡ false
  bind-fails (ok a, db) f h = ground (arith, h)
  bind-fails (err e, db) f h = refl

  found-fails :
      (w : Worker) (db : Db)
      → find (has_worker_id (uuid_value r.worker_id)) db.workers ≡ none
      → is_ok (record_found uuid_value r w db).0 ≡ false
  unfolding record_found record_heartbeat
  found-fails w db h = bind-fails _ _ (bind-fails _ _ (touch-fails _ _ _ db h))

  resolved-fails :
      (x : Result Worker × Db) (before : Db)
      → x.1.workers ≡ before.workers
      → find (has_worker_id (uuid_value r.worker_id)) before.workers ≡ none
      → is_ok (bind_result x (record_found uuid_value r)).0 ≡ false
  resolved-fails (ok w, db) before e h = found-fails w db (rw e h)
  resolved-fails (err q, db) before e h = refl

  container-workers :
      (name : String) (db : Db) → (get_by_container_id name db).1.workers ≡ db.workers
  unfolding get_by_container_id
  container-workers name db = ground arith

  or_container-workers :
      (name : String) (x : Result Worker × Db)
      → (or_container uuid_value name x).1.workers ≡ x.1.workers
  unfolding or_container
  or_container-workers name (ok w, db) = refl
  or_container-workers name (err not_found, db) = container-workers name db
  or_container-workers name (err e, db) = refl

  get_by_id-workers : (i : ℕ) (db : Db) → (Workers.get_by_id i db).1.workers ≡ db.workers
  unfolding Workers.get_by_id
  get_by_id-workers i db = ground arith

  -- A heartbeat that does not carry the id of a row is always answered by an error: one that carries
  -- the boot identity of a container is resolved to the row of the container, and then refused by
  -- the statement that writes it, which goes by the text of the heartbeat.
  pub beat-fails :
      (db : Db)
      → find (has_worker_id (uuid_value r.worker_id)) db.workers ≡ none
      → is_ok (beat uuid_value r db).0 ≡ false
  unfolding beat resolve_worker
  beat-fails db h =
      resolved-fails (resolve_worker uuid_value r.worker_id db) db
        (or_container-workers r.worker_id (Workers.get_by_id (uuid_value r.worker_id) db)
          ∙ get_by_id-workers (uuid_value r.worker_id) db)
        h

  -- The status of a worker after the heartbeat: ERROR if the browser says so; otherwise BUSY with a
  -- job; without one READY after PENDING, ERROR and DEAD, IDLE after BUSY, and else as it was.
  pub record BeatStatus (before after : WorkerStatus) : Type 0 where
    pub broken : r.browser_status ≡ "error" → after ≡ WorkerStatus.error
    pub working :
        (j : ℕ) → says_error r.browser_status ≡ false → r.current_job_id ≡ some j → after ≡ busy
    pub back :
        says_error r.browser_status ≡ false
        → r.current_job_id ≡ none
        → (before ≡ pending) ⊎ ((before ≡ WorkerStatus.error) ⊎ (before ≡ WorkerStatus.dead))
        → after ≡ ready
    pub done :
        says_error r.browser_status ≡ false → r.current_job_id ≡ none → before ≡ busy → after ≡ idle
    pub same :
        says_error r.browser_status ≡ false
        → r.current_job_id ≡ none
        → (before ≡ ready) ⊎ (before ≡ idle)
        → after ≡ before

  -- The row after the heartbeat, from the row before.
  pub record Beaten (now : ℕ) (w v : Worker) : Type 0 where
    pub status : BeatStatus w.status v.status
    pub unsaid : r.browser_status ≡ "" → v.browser_status ≡ w.browser_status
    pub said : is_empty r.browser_status ≡ false → v.browser_status ≡ r.browser_status
    pub row : v ≡ record w {
      last_heartbeat = some now;
      status = v.status;
      browser_status = v.browser_status;
      queue_depth = r.queue_depth;
      current_job_id = r.current_job_id;
      novnc_service = r.novnc_url;
    }

  abbrev beaten_db : Worker → Db → Db
  beaten_db w db = record db {
    workers = update_where (has_worker_id w.id) (touched db.now (snapshot_of w r)) db.workers;
    heartbeats =
        db.heartbeats
        ++ (record { worker_id = w.id; ts = db.now; jobs_done = low_32 r.jobs_done } ∷ []);
    frames = db.frames ++ (worker_health w.id ∷ []);
  }
