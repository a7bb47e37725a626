-- ===== src/Store/Scrapes.antt =====
-- apps/api/internal/repository/scrape.go: the statements on the scrape jobs and their targets, with
-- their queries (apps/api/db/queries/scrape_job.sql, target.sql).
use jg_smm.Prelude.{
  ℕ, suc, Bool, false, ◌&&◌, ◌==◌, leb, if◌then◌else◌, List, [], ◌∷◌, Option, none, some, find,
  keep, take, String,
}
use jg_smm.Prelude.Table.{update_where}
use jg_smm.Domain.Status.{JobStatus, is_pending}
use jg_smm.Domain.Entities.{ScrapeJob, Target}
use jg_smm.Store.{Db, M, Result, ok, err, not_found, query}
use jg_smm.Store.Workers.{page_limit}

abbrev pub has_scrape_id : ℕ → ScrapeJob → Bool
has_scrape_id i j = j.id == i

abbrev pub return_scrape : Option ScrapeJob → Db → Result ScrapeJob × Db
return_scrape none db = (err not_found, db)
return_scrape (some j) db = (ok j, db)

abbrev pub update_scrape : ℕ → (ScrapeJob → ScrapeJob) → M ScrapeJob
update_scrape i f = query λ db.
    let jobs = update_where (has_scrape_id i) f db.scrape_jobs in
    return_scrape (find (has_scrape_id i) jobs) (record db { scrape_jobs = jobs })

abbrev pub finished : JobStatus → Option String → ℕ → ScrapeJob → ScrapeJob
finished status error now j = record j { status = status; finished_at = some now; error = error }

unfoldable pub complete_scrape_job : ℕ → JobStatus → Option String → M ScrapeJob
unfolding update_where
complete_scrape_job i status error db = update_scrape i (finished status error db.now) db

abbrev pub put_back : ℕ → ScrapeJob → ScrapeJob
put_back at j = record j { status = JobStatus.pending; scheduled_at = at; finished_at = none }

unfoldable pub reschedule_scrape_job : ℕ → ℕ → M ScrapeJob
unfolding update_where
reschedule_scrape_job i at = update_scrape i (put_back at)

unfoldable pub insert_scrape : ScrapeJob → List ScrapeJob → List ScrapeJob
insert_scrape j [] = j ∷ []
insert_scrape j (k ∷ ks) =
    let rest = insert_scrape j ks in
    if leb j.scheduled_at k.scheduled_at then j ∷ (k ∷ ks) else k ∷ rest

unfoldable pub sort_scrapes : List ScrapeJob → List ScrapeJob
unfolding insert_scrape
sort_scrapes [] = []
sort_scrapes (j ∷ js) = insert_scrape j (sort_scrapes js)

abbrev pub is_pending_scrape : ScrapeJob → Bool
is_pending_scrape j = is_pending j.status

-- `ListScrapeJobsByStatus` for PENDING: by `scheduled_at`, cut at the page limit.
unfoldable pub list_pending_scrapes : ℕ → M (List ScrapeJob)
unfolding sort_scrapes page_limit
list_pending_scrapes limit =
    query λ db.
      (ok (take (page_limit limit) (sort_scrapes (keep is_pending_scrape db.scrape_jobs))), db)

abbrev pub is_of : ℕ → Option ℕ → Bool
is_of account none = false
is_of account (some a) = a == account

abbrev pub is_due_scrape : ℕ → ℕ → ScrapeJob → Bool
is_due_scrape account now j =
    is_of account j.account_id && (is_pending j.status && leb j.scheduled_at now)

abbrev pub first_of : List ScrapeJob → Option ScrapeJob
first_of [] = none
first_of (j ∷ js) = some j

abbrev pub started : ℕ → ScrapeJob → ScrapeJob
started now j = record j {
  status = JobStatus.running;
  started_at = some now;
  attempts = suc j.attempts;
}

abbrev pub start_found : Option ScrapeJob → Db → Result ScrapeJob × Db
start_found none db = (err not_found, db)
start_found (some j) db =
    let jobs = update_where (has_scrape_id j.id) (started db.now) db.scrape_jobs in
    return_scrape (find (has_scrape_id j.id) jobs) (record db { scrape_jobs = jobs })

-- `ClaimNextScrapeJob`: a due PENDING job of the account that none precedes.
unfoldable pub claim_next_scrape_job : ℕ → M ScrapeJob
unfolding sort_scrapes
claim_next_scrape_job account = query λ db.
    start_found (first_of (sort_scrapes (keep (is_due_scrape account db.now) db.scrape_jobs))) db

abbrev pub has_target_id : ℕ → Target → Bool
has_target_id i t = t.id == i

unfoldable pub get_target : ℕ → M Target
get_target i = query λ db. elim (find (has_target_id i) db.targets) [
  | none ↦ (err not_found, db)
  | some t ↦ (ok t, db)
]
