-- ===== src/Store/Jobs.antt =====
-- apps/api/internal/repository/action.go with its queries (apps/api/db/queries/action.sql) and the
-- constraints of the migrations. One statement is one step: no other session runs inside it.
pub mod Laws
pub mod Claims
use jg_smm.Prelude.{
  ℕ, zero, suc, ◌+◌, ◌≡◌, Bool, true, false, ◌&&◌, ◌||◌, not, ◌==◌, leb, ltb, if◌then◌else◌, List,
  [], ◌∷◌, ◌++◌, Option, none, some, find, keep, take, String,
}
use jg_smm.Prelude.Table.{update_where}
use jg_smm.Domain.Status.{ErrorClass, no_class, JobStatus, is_pending}
use jg_smm.Domain.Entities.{ActionJob, ActionLog}
use jg_smm.Store.{
  Db, M, Result, ok, err, not_found, validation, driver, query, low_32, is_negative_32,
}

abbrev pub has_job_id : ℕ → ActionJob → Bool
has_job_id i j = j.id == i

abbrev pub return_job : Option ActionJob → Db → Result ActionJob × Db
return_job none db = (err not_found, db)
return_job (some j) db = (ok j, db)

-- `UPDATE action_job SET ... WHERE id = $1 RETURNING *`.
abbrev pub update_job : ℕ → (ActionJob → ActionJob) → M ActionJob
update_job i f = query λ db.
    let jobs = update_where (has_job_id i) f db.jobs in
    return_job (find (has_job_id i) jobs) (record db { jobs = jobs })

unfoldable pub get_action_job : ℕ → M ActionJob
get_action_job i = query λ db. return_job (find (has_job_id i) db.jobs) db

abbrev pub completed : JobStatus → Option String → ℕ → ActionJob → ActionJob
completed status error now j = record j { status = status; finished_at = some now; error = error }

unfoldable pub complete_action_job : ℕ → JobStatus → Option String → M ActionJob
unfolding update_where
complete_action_job i status error db = update_job i (completed status error db.now) db

abbrev pub rescheduled : ℕ → ActionJob → ActionJob
rescheduled at j = record j { status = JobStatus.pending; scheduled_at = at; finished_at = none }

unfoldable pub reschedule_action_job : ℕ → ℕ → M ActionJob
unfolding update_where
reschedule_action_job i at = update_job i (rescheduled at)

-- `ListActionJobsByStatus`: the rows of one status by `scheduled_at`, cut at the page limit. The rows
-- are sorted by insertion, equal times in table order.
pub insert_by_time : ActionJob → List ActionJob → List ActionJob
insert_by_time j [] = j ∷ []
insert_by_time j (k ∷ ks) =
    let rest = insert_by_time j ks in
    if leb j.scheduled_at k.scheduled_at then j ∷ k ∷ ks else k ∷ rest

pub sort_by_time : List ActionJob → List ActionJob
unfolding insert_by_time
sort_by_time [] = []
sort_by_time (j ∷ js) = insert_by_time j (sort_by_time js)

-- `ptrPage` and `pageBounds`: a limit of 0 or over 200 becomes 100.
abbrev pub page_limit : ℕ → ℕ
page_limit limit = if limit == 0 || ltb 200 limit then 100 else limit

abbrev pub is_pending_job : ActionJob → Bool
is_pending_job j = is_pending j.status

unfoldable pub list_pending_jobs : ℕ → M (List ActionJob)
unfolding sort_by_time
list_pending_jobs limit =
    query λ db. (ok (take (page_limit limit) (sort_by_time (keep is_pending_job db.jobs))), db)

-- `WHERE account_id = $1 AND status = 'PENDING' AND scheduled_at <= now()`.
abbrev pub is_claimable : ℕ → ℕ → ActionJob → Bool
is_claimable account now j =
    j.account_id == account && (is_pending j.status && leb j.scheduled_at now)

-- `ORDER BY scheduled_at LIMIT 1`; of equal times the first row.
abbrev pub older : ActionJob → Option ActionJob → ActionJob
older j none = j
older j (some k) = if leb j.scheduled_at k.scheduled_at then j else k

unfoldable pub oldest : List ActionJob → Option ActionJob
oldest [] = none
oldest (j ∷ js) = some (older j (oldest js))

abbrev pub claimed : ℕ → ℕ → ActionJob → ActionJob
claimed worker now j = record j {
  status = JobStatus.running;
  started_at = some now;
  attempts = suc j.attempts;
  worker_id = worker;
}

abbrev pub claim_found : Option ActionJob → ℕ → Db → Result ActionJob × Db
claim_found none worker db = (err not_found, db)
claim_found (some j) worker db =
    let jobs = update_where (has_job_id j.id) (claimed worker db.now) db.jobs in
    return_job (find (has_job_id j.id) jobs) (record db { jobs = jobs })

unfoldable pub claim_next_action_job : ℕ → ℕ → M ActionJob
claim_next_action_job account worker =
    query λ db. claim_found (oldest (keep (is_claimable account db.now) db.jobs)) worker db

abbrev pub is_attempt : ℕ → ℕ → ActionLog → Bool
is_attempt job attempt l = l.job_id == job && l.attempt == attempt

abbrev pub coalesce {ℓ} : {A : Type ℓ} → Option A → Option A → Option A
coalesce none old = old
coalesce (some a) old = some a

abbrev pub coalesce_id : ℕ → ℕ → ℕ
coalesce_id new old = if new == 0 then old else new

-- `ON CONFLICT (action_job_id, attempt) DO UPDATE`: a text that is left out keeps what is there,
-- and `rendered_text` is not in the list of columns that are set.
abbrev pub merged : ActionLog → ℕ → ActionLog → ActionLog
merged new now old = record old {
  status = new.status;
  verified = new.verified;
  worker_id = coalesce_id new.worker_id old.worker_id;
  response_excerpt = coalesce new.response_excerpt old.response_excerpt;
  error_class = coalesce new.error_class old.error_class;
  screenshot_url = coalesce new.screenshot_url old.screenshot_url;
  duration_ms = new.duration_ms;
  ts = now;
}

abbrev pub upsert_found : Option ActionLog → ActionLog → ℕ → List ActionLog → List ActionLog
upsert_found none new now logs = logs ++ (record new { ts = now } ∷ [])
upsert_found (some old) new now logs =
    update_where (is_attempt new.job_id new.attempt) (merged new now) logs

abbrev pub upsert : ActionLog → ℕ → List ActionLog → List ActionLog
upsert new now logs = upsert_found (find (is_attempt new.job_id new.attempt) logs) new now logs

abbrev pub stored : Option ActionLog → ActionLog → ℕ → ActionLog
stored none new now = record new { ts = now }
stored (some old) new now = merged new now old

-- The job is a foreign key, so a log row for a job that is not there is refused by the database.
abbrev pub upsert_for : Option ActionJob → ActionLog → Db → Result ActionLog × Db
upsert_for none new db = (err driver, db)
upsert_for (some j) new db = (
  ok (stored (find (is_attempt new.job_id new.attempt) db.logs) new db.now),
  record db { logs = upsert new db.now db.logs },
)

-- The numbers of a row as `int32` of them.
abbrev pub narrowed : ActionLog → ActionLog
narrowed l = record l { attempt = low_32 l.attempt; duration_ms = low_32 l.duration_ms }

-- `CHECK (attempt > 0)` and `CHECK (duration_ms >= 0)`, on what the conversions leave.
abbrev pub breaks_check : ActionLog → Bool
breaks_check l = low_32 l.attempt == 0 || (is_negative_32 l.attempt || is_negative_32 l.duration_ms)

abbrev pub upsert_checked : Bool → ActionLog → Db → Result ActionLog × Db
upsert_checked true new db = (err driver, db)
upsert_checked false new db = upsert_for (find (has_job_id new.job_id) db.jobs) (narrowed new) db

-- A duration is a number that is not negative.
unfoldable pub upsert_action_log : ActionLog → M ActionLog
unfolding update_where
upsert_action_log new db = elim new.attempt [
  | zero ↦ (err validation, db)
  | suc _ ↦ query (upsert_checked (breaks_check new) new) db
]
