-- ===== src/Callback/Log.antt =====
-- job.go, `RecordAttempt`: the log rows that a callback writes, and the callbacks that are refused.
use jg_smm.Prelude.{
  ℕ, ◌+◌, ◌≤◌, ◌≡◌, refl, ◌∙◌, ◌≢◌, ◌⊎◌, inl, inr, Bool, true, false, List, [], ◌∷◌, ◌++◌, Option,
  String, arith, find, count, count-find-none, count-find-some, All, Option-cases, if◌then◌else◌,
}
use jg_smm.Prelude.Table.{update_where}
use jg_smm.Domain.Status.{AttemptStatus, ErrorClass}
use jg_smm.Domain.Entities.{ActionLog}
use jg_smm.Store.{Db, Err, Result, ok, err, is_ok, publish, action_updated, bind_result}
use jg_smm.Store.Jobs.{
  narrowed, breaks_check, is_attempt, merged, upsert, upsert_action_log, complete_action_job,
  reschedule_action_job, get_action_job,
}
use jg_smm.Store.Accounts.{get_by_id, update}
use jg_smm.Callback.{
  AttemptRecord, is_success, log_of, apply_to_job, apply_health, score_job, score_account,
  after_log, record_parsed,
}

-- A log row is verified exactly when its status is SUCCESS.
abbrev pub IsVerified : ActionLog → Type 0
IsVerified l = l.verified ≡ is_success l.status

update_where-IsVerified :
    (p : ActionLog → Bool) (new : ActionLog) (now : ℕ) (logs : List ActionLog)
    → IsVerified new
    → All IsVerified logs
    → All IsVerified (update_where p (merged new now) logs)
unfolding update_where
update_where-IsVerified p new now [] h a = tt
update_where-IsVerified p new now (l ∷ logs) h a =
    (ground arith, update_where-IsVerified p new now logs h a.1)

append-IsVerified :
    (logs : List ActionLog) (l : ActionLog)
    → IsVerified l
    → All IsVerified logs
    → All IsVerified (logs ++ (l ∷ []))
append-IsVerified [] l h a = (h, tt)
append-IsVerified (k ∷ logs) l h a = (a.0, append-IsVerified logs l h a.1)

pub upsert-IsVerified :
    (new : ActionLog) (now : ℕ) (logs : List ActionLog)
    → IsVerified new
    → All IsVerified logs
    → All IsVerified (upsert new now logs)
upsert-IsVerified new now logs h a =
    elim (Option-cases (find (is_attempt new.job_id new.attempt) logs)) [
      | inl e ↦ rw e (append-IsVerified logs (record new { ts = now }) h a)
      | inr (l, e) ↦
          rw e (update_where-IsVerified (is_attempt new.job_id new.attempt) new now logs h a)
    ]

-- How many log rows a (job, attempt) pair has.
abbrev pub rows_of : ℕ → ℕ → List ActionLog → ℕ
rows_of job n = count (is_attempt job n)

rows_of-update :
    (job n k m now : ℕ) (new : ActionLog) (logs : List ActionLog)
    → rows_of job n (update_where (is_attempt k m) (merged new now) logs) ≡ rows_of job n logs
unfolding update_where
rows_of-update job n k m now new [] = refl
rows_of-update job n k m now new (l ∷ logs) = ground (arith, rows_of-update job n k m now new logs)

rows_of-append :
    (job n : ℕ) (logs : List ActionLog) (l : ActionLog)
    → rows_of job n (logs ++ (l ∷ [])) ≡ rows_of job n logs + (if is_attempt job n l then 1 else 0)
rows_of-append job n [] l = ground arith
rows_of-append job n (k ∷ logs) l = ground (arith, rows_of-append job n logs l)

pub upsert-rows :
    (new : ActionLog) (now : ℕ) (logs : List ActionLog)
    → rows_of new.job_id new.attempt logs ≤ 1
    → rows_of new.job_id new.attempt (upsert new now logs) ≡ 1
upsert-rows new now logs h = elim (Option-cases (find (is_attempt new.job_id new.attempt) logs)) [
  | inl e ↦ rw e (
      ground (
        arith,
        rows_of-append new.job_id new.attempt logs (record new { ts = now }),
        count-find-none (is_attempt new.job_id new.attempt) logs e,
      ))
  | inr (l, e) ↦ rw e (
      ground (
        arith,
        rows_of-update new.job_id new.attempt new.job_id new.attempt now new logs,
        count-find-some (is_attempt new.job_id new.attempt) logs l e,
      ))
]

pub upsert-other :
    (new : ActionLog) (now : ℕ) (logs : List ActionLog) (job n : ℕ)
    → (new.job_id ≢ job) ⊎ (new.attempt ≢ n)
    → rows_of job n (upsert new now logs) ≡ rows_of job n logs
upsert-other new now logs job n h =
    elim (Option-cases (find (is_attempt new.job_id new.attempt) logs)) [
      | inl e ↦ rw e (ground (arith, rows_of-append job n logs (record new { ts = now })))
      | inr (l, e) ↦ rw e (rows_of-update job n new.job_id new.attempt now new logs)
    ]

-- The statements on jobs and accounts leave the log alone.
logs-apply_to_job :
    (job n : ℕ) (status : AttemptStatus) (class : ErrorClass) (error : Option String) (db : Db)
    → (apply_to_job job n status class error db).1.logs ≡ db.logs
unfolding apply_to_job complete_action_job reschedule_action_job
logs-apply_to_job job n AttemptStatus.running class error db = refl
logs-apply_to_job job n _ class error db = ground arith

logs-score_account :
    (status : AttemptStatus) (class : ErrorClass) (account : ℕ) (db : Db)
    → (score_account status class account db).1.logs ≡ db.logs
unfolding score_account get_by_id update publish
logs-score_account status class account db = ground arith

logs-score_job :
    (status : AttemptStatus) (class : ErrorClass) (job : ℕ) (db : Db)
    → (score_job status class job db).1.logs ≡ db.logs
unfolding score_job get_action_job get_by_id update publish
logs-score_job status class job db = ground arith

logs-apply_health :
    (status : AttemptStatus) (class : ErrorClass) (job : ℕ) (db : Db)
    → (apply_health status class job db).1.logs ≡ db.logs
unfolding apply_health
logs-apply_health AttemptStatus.running class job db = refl
logs-apply_health _ class job db = logs-score_job _ class job db

pub apply_health-ok :
    (status : AttemptStatus) (class : ErrorClass) (job : ℕ) (db : Db)
    → (apply_health status class job db).0 ≡ ok tt
unfolding apply_health get_action_job get_by_id update publish
apply_health-ok AttemptStatus.running class job db = refl
apply_health-ok _ class job db = ground arith

accounts-apply_to_job :
    (job n : ℕ) (status : AttemptStatus) (class : ErrorClass) (error : Option String) (db : Db)
    → (apply_to_job job n status class error db).1.accounts ≡ db.accounts
unfolding apply_to_job complete_action_job reschedule_action_job
accounts-apply_to_job job n AttemptStatus.running class error db = refl
accounts-apply_to_job job n _ class error db = ground arith

-- The steps after the log row: they leave the log, and if they fail no account was scored.
logs-bind :
    (job : ℕ) (r : AttemptRecord) (class : ErrorClass) (x : Result (Unit {0}) × Db)
    → (bind_result x (λ _. apply_health r.status class job)).1.logs ≡ x.1.logs
logs-bind job r class (ok a, db) = logs-apply_health r.status class job db
logs-bind job r class (err e, db) = refl

logs-after_log :
    (job n : ℕ) (r : AttemptRecord) (class : ErrorClass) (db : Db)
    → (after_log job n r class db).1.logs ≡ db.logs
unfolding after_log publish
logs-after_log job n r class db =
    let db' : Db = record db { frames = db.frames ++ (action_updated job ∷ []) } in
    logs-bind job r class (apply_to_job job n r.status class r.error db')
    ∙ logs-apply_to_job job n r.status class r.error db'

accounts-bind :
    (job : ℕ) (r : AttemptRecord) (class : ErrorClass) (e : Err) (x : Result (Unit {0}) × Db)
    → (bind_result x (λ _. apply_health r.status class job)).0 ≡ err e
    → (bind_result x (λ _. apply_health r.status class job)).1.accounts ≡ x.1.accounts
accounts-bind job r class e (ok a, db) h = ground (arith, apply_health-ok r.status class job db)
accounts-bind job r class e (err e', db) h = refl

pub accounts-after_log :
    (job n : ℕ) (r : AttemptRecord) (class : ErrorClass) (e : Err) (db : Db)
    → (after_log job n r class db).0 ≡ err e
    → (after_log job n r class db).1.accounts ≡ db.accounts
unfolding after_log publish
accounts-after_log job n r class e db h =
    let db' : Db = record db { frames = db.frames ++ (action_updated job ∷ []) } in
    accounts-bind job r class e (apply_to_job job n r.status class r.error db') h
    ∙ accounts-apply_to_job job n r.status class r.error db'

-- The log row is written first: either the write fails and nothing but the fault schedule changes,
-- or it goes through and the rest runs on its result.
abbrev pub Upserted : ActionLog → Db → Result ActionLog × Db → Type 0
Upserted new db x =
    (x.1.accounts ≡ db.accounts)
    × (((is_ok x.0 ≡ false) × (x.1.logs ≡ db.logs))
        ⊎ ((is_ok x.0 ≡ true)
            × (breaks_check new ≡ false)
            × (x.1.logs ≡ upsert (narrowed new) db.now db.logs)))

pub upsert-Upserted : (new : ActionLog) (db : Db) → Upserted new db (upsert_action_log new db)
unfolding upsert_action_log
upsert-Upserted new db = ground arith

pub logs-then :
    (job n : ℕ) (r : AttemptRecord) (class : ErrorClass) (x : Result ActionLog × Db)
    → (bind_result x (λ _. after_log job n r class)).1.logs ≡ x.1.logs
logs-then job n r class (ok l, db) = logs-after_log job n r class db
logs-then job n r class (err e, db) = refl

-- The log after a callback is the log with the attempt's row upserted, or the log as it was.
pub logs-record_parsed :
    (job n : ℕ) (r : AttemptRecord) (class : ErrorClass) (db : Db)
    → ((record_parsed job n r class db).1.logs ≡ db.logs)
      ⊎ ((record_parsed job n r class db).1.logs
          ≡ upsert (narrowed (log_of job n r class)) db.now db.logs)
unfolding record_parsed
logs-record_parsed job n r class db = ground (
  arith,
  logs-then job n r class (upsert_action_log (log_of job n r class) db),
  upsert-Upserted (log_of job n r class) db,
)
