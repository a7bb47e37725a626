-- ===== src/Callback.antt =====
-- apps/api/internal/service/job.go and health_score_wire.go: the callback by which a worker reports an
-- action attempt. `record_attempt` writes the log row, projects the verdict onto the job (or puts the
-- job back for a retry), and lets the verdict cost or restore the account's health.
-- All stores are wired, as main.go wires them. `uuid_value` is the parser of the uuid package: it maps
-- a text to the key of a row, 0 for a text that is no UUID.
pub mod AttemptId
pub mod Keys
pub mod Login
pub mod Retry
pub mod Log
pub mod Attempt
pub mod Score
use jg_smm.Prelude.{
  ℕ, zero, suc, ◌+◌, ◌-◌, ◌*◌, ◌^◌, ◌≡◌, String, Bool, true, false, ◌&&◌, not, ◌==◌, ltb,
  if◌then◌else◌, List, [], ◌∷◌, Option, none, some,
}
use jg_smm.Prelude.Text.{codes}
use jg_smm.Domain.Status.{
  AccountStatus, dead, quarantined, AttemptStatus, success, cancelled, ErrorClass, no_class,
  is_valid_attempt, retryable, JobStatus,
}
use jg_smm.Domain.Entities.{Account, ActionJob, ActionLog}
use jg_smm.Domain.Classify.{classify_action_error}
use jg_smm.Store.{
  Db, M, Result, ok, err, validation, Frame, account_updated, action_updated, publish, pure, throw,
  attempt, ◌>>=◌, ◌>>◌, bind_result, handle_result,
}
use jg_smm.Store.Jobs.{
  get_action_job, complete_action_job, reschedule_action_job, upsert_action_log,
}
use jg_smm.Store.Accounts.{get_by_id, update}
use jg_smm.Health.{default_policy, apply_verdict, is_failure, is_terminal, should_quarantine}
use AttemptId.{parse_attempt_id}

pub record AttemptRecord : Type 0 where
  pub attempt_id : List ℕ
  pub status : AttemptStatus
  pub screenshot : Option String
  pub error : Option String
  pub worker_id : ℕ
  pub rendered_text : String
  pub response_excerpt : Option String
  pub duration_ms : ℕ

pub record RetryPolicy : Type 0 where
  pub max_attempts : ℕ
  pub backoff : ℕ

-- Three attempts, and 30 seconds, in nanoseconds.
abbrev pub default_retry_policy : RetryPolicy
default_retry_policy = record { max_attempts = 3; backoff = 30_000_000_000 }

abbrev pub error_or_empty : Option String → List ℕ
error_or_empty none = []
error_or_empty (some s) = codes s

unfoldable pub classify_attempt : AttemptStatus → List ℕ → ErrorClass
classify_attempt status msg = if is_failure status then classify_action_error msg else no_class

-- `s.retry.Backoff << (attempt - 1)`. Under the default policy the attempt is 1 or 2 here, so the
-- shift does not leave 64 bits.
abbrev pub backoff_after : ℕ → ℕ
backoff_after n = default_retry_policy.backoff * 2 ^ (n - 1)

-- The last part of `applyVerdict`: a failure decides whether the job gets another life.
unfoldable pub after_failure : ℕ → ℕ → ErrorClass → Option String → M (Unit {0})
after_failure job n class error db =
    if retryable class && ltb n default_retry_policy.max_attempts
    then (reschedule_action_job job (db.now + backoff_after n) >> pure tt) db
    else (complete_action_job job JobStatus.failed error >> pure tt) db

unfoldable pub apply_to_job : ℕ → ℕ → AttemptStatus → ErrorClass → Option String → M (Unit {0})
unfolding after_failure
apply_to_job job n AttemptStatus.running class error = pure tt
apply_to_job job n success class error = complete_action_job job JobStatus.success none >> pure tt
apply_to_job job n cancelled class error =
    complete_action_job job JobStatus.cancelled none >> pure tt
apply_to_job job n AttemptStatus.failed class error = after_failure job n class error
apply_to_job job n AttemptStatus.retry class error = after_failure job n class error
apply_to_job job n AttemptStatus.other class error =
    complete_action_job job JobStatus.success none >> pure tt

-- The status that an account has after a verdict, given its new score.
abbrev pub pool_status : AttemptStatus → ErrorClass → Account → AccountStatus
pool_status status class a =
    if is_terminal default_policy status class
    then dead
    else if should_quarantine default_policy a.health_score status class
    then quarantined
    else a.status

abbrev pub scored : AttemptStatus → ErrorClass → Account → Account
scored status class a = record a {
  health_score = apply_verdict default_policy a.health_score status class;
}

abbrev pub judged : AttemptStatus → ErrorClass → Account → Account
judged status class a =
    let b = scored status class a in record b { status = pool_status status class b }

-- Every error here is logged and swallowed.
abbrev quiet : {A : Type 0} → Result A → (A → M (Unit {0})) → M (Unit {0})
quiet (err e) f = pure tt
quiet (ok a) f = f a

unfoldable pub score_account : AttemptStatus → ErrorClass → ℕ → M (Unit {0})
score_account status class account = attempt (get_by_id account) λ r. quiet r λ a.
    attempt (update (judged status class a)) λ r'. quiet r' λ _. publish (account_updated account)

unfoldable pub score_job : AttemptStatus → ErrorClass → ℕ → M (Unit {0})
unfolding score_account
score_job status class job =
    attempt (get_action_job job) λ r.
      quiet r λ j. if j.account_id == 0 then pure tt else score_account status class j.account_id

unfoldable pub apply_health : AttemptStatus → ErrorClass → ℕ → M (Unit {0})
unfolding score_job
apply_health AttemptStatus.running class job = pure tt
apply_health status class job = score_job status class job

abbrev pub is_success : AttemptStatus → Bool
is_success success = true
is_success _ = false

abbrev or_null : ErrorClass → Option ErrorClass
or_null no_class = none
or_null class = some class

abbrev pub log_of : ℕ → ℕ → AttemptRecord → ErrorClass → ActionLog
log_of job n r class = record {
  job_id = job;
  attempt = n;
  status = r.status;
  verified = is_success r.status;
  worker_id = r.worker_id;
  rendered_text = r.rendered_text;
  response_excerpt = r.response_excerpt;
  error_class = or_null class;
  screenshot_url = r.screenshot;
  duration_ms = r.duration_ms;
  ts = 0;
}

-- What follows the log row: the frame, the job, the health.
unfoldable pub after_log : ℕ → ℕ → AttemptRecord → ErrorClass → M (Unit {0})
after_log job n r class = do
  _ ← publish (action_updated job)
  _ ← apply_to_job job n r.status class r.error
  apply_health r.status class job

-- `RecordAttempt` from the parsed key on.
unfoldable pub record_parsed : ℕ → ℕ → AttemptRecord → ErrorClass → M (Unit {0})
record_parsed job n r class = upsert_action_log (log_of job n r class) >> after_log job n r class

module _ (uuid_value : List ℕ → ℕ) where
  abbrev record_key : Option (List ℕ × ℕ) → AttemptRecord → ErrorClass → M (Unit {0})
  record_key none r class = throw validation
  record_key (some (job, n)) r class = record_parsed (uuid_value job) n r class

  unfoldable pub record_attempt : AttemptRecord → M (Unit {0})
  record_attempt r =
      if is_valid_attempt r.status
      then record_key (parse_attempt_id r.attempt_id) r
          (classify_attempt r.status (error_or_empty r.error))
      else throw validation
