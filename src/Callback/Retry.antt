-- ===== src/Callback/Retry.antt =====
-- job.go, `applyVerdict`: what a verdict does to the row of its job, and to every other job.
use jg_smm.Prelude.{
  ℕ, ◌+◌, ◌-◌, ◌*◌, ◌^◌, ◌≤◌, ◌≡◌, refl, ◌≢◌, ◌⊎◌, inl, inr, false, ◌&&◌, ltb, [], Option, none,
  some, String, arith, if◌then◌else◌,
}
use jg_smm.Domain.Status.{
  AttemptStatus, success, cancelled, ErrorClass, JobStatus, is_pending, retryable,
}
use jg_smm.Domain.Entities.{ActionJob}
use jg_smm.Store.{Db, Result, ok, err, pure, bind_result}
use jg_smm.Store.Jobs.{completed, rescheduled, complete_action_job, reschedule_action_job}
use jg_smm.Store.Jobs.Laws.{job_of, job_of-update, job_of-update_ne, update_job_ok}
use jg_smm.Callback.{backoff_after, after_failure, apply_to_job}

-- What a job's row becomes, given the time, the attempt's number, its status, class and error text.
pub verdict_row : ℕ → ℕ → AttemptStatus → ErrorClass → Option String → ActionJob → ActionJob
verdict_row now n AttemptStatus.running class error j = j
verdict_row now n cancelled class error j = completed JobStatus.cancelled none now j
verdict_row now n success class error j = completed JobStatus.success none now j
verdict_row now n AttemptStatus.other class error j = completed JobStatus.success none now j
verdict_row now n _ class error j =
    if retryable class && ltb n 3
    then rescheduled (now + 30_000_000_000 * 2 ^ (n - 1)) j
    else completed JobStatus.failed error now j

apply_to_job_ok :
    (job n : ℕ) (status : AttemptStatus) (class : ErrorClass) (error : Option String) (db : Db)
    (j : ActionJob)
    → db.faults ≡ []
    → job_of job db ≡ some j
    → ((apply_to_job job n status class error db).0 ≡ ok tt)
      × (job_of job (apply_to_job job n status class error db).1
          ≡ some (verdict_row db.now n status class error j))
unfolding apply_to_job complete_action_job reschedule_action_job verdict_row
apply_to_job_ok job n AttemptStatus.running class error db j q e = (refl, e)
apply_to_job_ok job n status class error db j q e = ground (
  arith,
  update_job_ok job (completed JobStatus.success none db.now) (λ k. refl) db j q e,
  update_job_ok job (completed JobStatus.cancelled none db.now) (λ k. refl) db j q e,
  update_job_ok job (completed JobStatus.failed error db.now) (λ k. refl) db j q e,
  update_job_ok job (rescheduled (db.now + backoff_after n)) (λ k. refl) db j q e,
)

apply_to_job_ne :
    (job n : ℕ) (status : AttemptStatus) (class : ErrorClass) (error : Option String) (db : Db)
    (k : ℕ)
    → job ≢ k
    → job_of k (apply_to_job job n status class error db).1 ≡ job_of k db
unfolding apply_to_job complete_action_job reschedule_action_job
apply_to_job_ne job n AttemptStatus.running class error db k h = refl
apply_to_job_ne job n status class error db k h = ground (
  arith,
  job_of-update_ne job (completed JobStatus.success none db.now) (λ j. refl) k db h,
  job_of-update_ne job (completed JobStatus.cancelled none db.now) (λ j. refl) k db h,
  job_of-update_ne job (completed JobStatus.failed error db.now) (λ j. refl) k db h,
  job_of-update_ne job (rescheduled (db.now + backoff_after n)) (λ j. refl) k db h,
)

-- When no store call fails and the job is there, the verdict is projected without error: RUNNING
-- changes nothing; SUCCESS and CANCELLED finish the job; a failure of a retryable class below the
-- third attempt puts the job back as PENDING after 30 s, doubled for each attempt before; and any
-- other failure makes the job FAILED with the reported error. No other job changes.
pub apply_to_job_lem :
    (job n : ℕ) (status : AttemptStatus) (class : ErrorClass) (error : Option String) (db : Db)
    (j : ActionJob)
    → db.faults ≡ []
    → job_of job db ≡ some j
    → ((apply_to_job job n status class error db).0 ≡ ok tt)
      × (job_of job (apply_to_job job n status class error db).1
          ≡ some (verdict_row db.now n status class error j))
      × ((k : ℕ) → job ≢ k → job_of k (apply_to_job job n status class error db).1 ≡ job_of k db)
apply_to_job_lem job n status class error db j q e =
    let (r, s) = apply_to_job_ok job n status class error db j q e in
    (r, s, apply_to_job_ne job n status class error db)

-- The job was left as it was, or it is not waiting in the queue.
abbrev pub Settled : Option ActionJob → Option ActionJob → Type 0
Settled before after =
    (after ≡ before) ⊎ ((j : ActionJob) × (after ≡ some j) × (is_pending j.status ≡ false))

then_state : {A : Type 0} (r : Result A × Db) → (bind_result r (λ _. pure tt)).1 ≡ r.1
then_state (ok a, db) = refl
then_state (err e, db) = refl

update_Settled :
    (job : ℕ) (status : JobStatus) (error : Option String) (db : Db)
    → is_pending status ≡ false
    → Settled
        (job_of job db)
        (job_of job (bind_result (complete_action_job job status error db) (λ _. pure tt)).1)
unfolding complete_action_job
update_Settled job status error db h =
    rw (then_state (complete_action_job job status error db))
      (elim (job_of-update job (completed status error db.now) (λ j. refl) db) [
        | inl e ↦ inl e
        | inr (j, e, e') ↦ inr (completed status error db.now j, e', h)
      ])

failure_Settled :
    (job n : ℕ) (class : ErrorClass) (error : Option String) (db : Db)
    → (retryable class ≡ false) ⊎ (3 ≤ n)
    → Settled (job_of job db) (job_of job (after_failure job n class error db).1)
unfolding after_failure
failure_Settled job n class error db h =
    let no : (retryable class && ltb n 3) ≡ false = ground arith in
    rw no (update_Settled job JobStatus.failed error db refl)

-- Whichever store calls fail, a verdict of a class that is not retryable (AUTH, BANNED, UNKNOWN or
-- none), or of the third attempt or a later one, never puts a job into the queue.
pub no_retry :
    (job n : ℕ) (status : AttemptStatus) (class : ErrorClass) (error : Option String) (db : Db)
    → (retryable class ≡ false) ⊎ (3 ≤ n)
    → Settled (job_of job db) (job_of job (apply_to_job job n status class error db).1)
unfolding apply_to_job
no_retry job n AttemptStatus.running class error db h = inl refl
no_retry job n success class error db h = update_Settled job JobStatus.success none db refl
no_retry job n cancelled class error db h = update_Settled job JobStatus.cancelled none db refl
no_retry job n AttemptStatus.failed class error db h = failure_Settled job n class error db h
no_retry job n AttemptStatus.retry class error db h = failure_Settled job n class error db h
no_retry job n AttemptStatus.other class error db h =
    update_Settled job JobStatus.success none db refl
