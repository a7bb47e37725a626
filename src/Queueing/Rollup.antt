-- ===== src/Queueing/Rollup.antt =====
-- action.go, `GetBatchStatus`: the statuses of the jobs of a batch, counted. The batch store's answer is
-- given. A job that cannot be read counts as missing, whatever the error.
use jg_smm.Prelude.{ℕ, suc, ◌+◌, ◌≡◌, List, [], ◌∷◌, Option, none, some, length, arith}
use jg_smm.Domain.Status.{JobStatus}
use jg_smm.Domain.Entities.{ActionJob}
use jg_smm.Store.{Db, M, Result, ok, err, not_found}
use jg_smm.Store.Jobs.{get_action_job}

-- The map `byStatus`, whose keys are the constants of the type, and the missing jobs.
pub record BatchStatus : Type 0 where
  pub pending : ℕ
  pub running : ℕ
  pub success : ℕ
  pub failed : ℕ
  pub retry : ℕ
  pub cancelled : ℕ
  pub missing : ℕ

abbrev pub empty_status : BatchStatus
empty_status = record {
  pending = 0;
  running = 0;
  success = 0;
  failed = 0;
  retry = 0;
  cancelled = 0;
  missing = 0;
}

abbrev pub tally : JobStatus → BatchStatus → BatchStatus
tally JobStatus.pending b = record b { pending = suc b.pending }
tally JobStatus.running b = record b { running = suc b.running }
tally JobStatus.success b = record b { success = suc b.success }
tally JobStatus.failed b = record b { failed = suc b.failed }
tally JobStatus.retry b = record b { retry = suc b.retry }
tally JobStatus.cancelled b = record b { cancelled = suc b.cancelled }

unfoldable pub tally_job : BatchStatus → Result ActionJob × Db → BatchStatus × Db
tally_job b (ok j, db) = (tally j.status b, db)
tally_job b (err e, db) = (record b { missing = suc b.missing }, db)

unfoldable pub roll_up : List ℕ → BatchStatus × Db → BatchStatus × Db
unfolding tally_job
roll_up [] x = x
roll_up (i ∷ rest) (b, db) = roll_up rest (tally_job b (get_action_job i db))

unfoldable pub get_batch_status : Result (Option (List ℕ)) → M BatchStatus
unfolding roll_up
get_batch_status (err e) db = (err e, db)
get_batch_status (ok none) db = (err not_found, db)
get_batch_status (ok (some ids)) db =
    let (b, after) = roll_up ids (empty_status, db) in (ok b, after)

-- How many jobs a rollup counts.
abbrev pub total : BatchStatus → ℕ
total b = b.pending + b.running + b.success + b.failed + b.retry + b.cancelled + b.missing

tally-total : (s : JobStatus) (b : BatchStatus) → total (tally s b) ≡ suc (total b)
tally-total JobStatus.pending b = omega arith
tally-total JobStatus.running b = omega arith
tally-total JobStatus.success b = omega arith
tally-total JobStatus.failed b = omega arith
tally-total JobStatus.retry b = omega arith
tally-total JobStatus.cancelled b = omega arith

tally_job-total :
    (b : BatchStatus) (x : Result ActionJob × Db) → total (tally_job b x).0 ≡ suc (total b)
unfolding tally_job
tally_job-total b (ok j, db) = tally-total j.status b
tally_job-total b (err e, db) = omega arith

roll_up-total :
    (ids : List ℕ) (x : BatchStatus × Db) → total (roll_up ids x).0 ≡ total x.0 + length ids
unfolding roll_up
roll_up-total [] x = omega arith
roll_up-total (i ∷ rest) (b, db) =
    let t = tally_job-total b (get_action_job i db) in
    let r = roll_up-total rest (tally_job b (get_action_job i db)) in omega (arith, t, r)

-- A rollup counts every job of the batch once: the numbers of all statuses and the missing jobs add up
-- to the jobs of the batch, whichever lookups fail.
pub get_batch_status-total :
    (ids : List ℕ) (db : Db) (b : BatchStatus)
    → (get_batch_status (ok (some ids)) db).0 ≡ ok b
    → total b ≡ length ids
unfolding get_batch_status
get_batch_status-total ids db b h =
    let r = roll_up-total ids (empty_status, db) in
    let same : b ≡ (roll_up ids (empty_status, db)).0 = ground (arith, h) in
    rw same (omega (arith, r))
