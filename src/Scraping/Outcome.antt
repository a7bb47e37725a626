-- ===== src/Scraping/Outcome.antt =====
-- scrape_scheduler.go, `runOne`: how a claimed job can end.
use jg_smm.Prelude.{
  ℕ, ◌≤◌, ◌≢◌, [], find, ◌+◌, ◌<◌, ◌≡◌, true, false, List, Option, none, some, String, ◌⊎◌,
}
use jg_smm.Prelude.Table.{update_where}
use jg_smm.Truncate.{truncate_err}
use jg_smm.Domain.Status.{JobStatus}
use jg_smm.Domain.Entities.{ScrapeJob, Target}
use jg_smm.Store.{Db, Err, Result, ok, err, is_ok}
use jg_smm.Store.Scrapes.{has_scrape_id, finished, put_back, get_target}
use jg_smm.Scraping.{ScrapeConfig, Tools, ApifyOutput, is_rate_limit_message, delay_of}

abbrev pub finished_rows : ℕ → JobStatus → Option String → ℕ → List ScrapeJob → List ScrapeJob
finished_rows i status error now jobs =
    update_where (has_scrape_id i) (finished status error now) jobs

abbrev pub put_back_rows : ℕ → ℕ → List ScrapeJob → List ScrapeJob
put_back_rows i at jobs = update_where (has_scrape_id i) (put_back at) jobs

module _ (tools : Tools) (cfg : ScrapeConfig) (job : ScrapeJob) (db : Db) where
  -- The runner was asked about the target of the job, and answered.
  pub record Asked (answer : Result ApifyOutput) : Type 0 where
    pub run : ScrapeJob → Target → Db → Result ApifyOutput
    pub target : Target
    pub wired : tools.runner ≡ some run
    pub found : (get_target job.target_id db).0 ≡ ok target
    pub said : run job target (get_target job.target_id db).1 ≡ answer

  -- Why a job is put back: there is no runner, it could not run, or it says that it was limited.
  pub data ToRetry (reason : String) : Type 0 where
    no_runner : tools.runner ≡ none → reason ≡ "no apify runner configured" → ToRetry reason
    broken : (e : Err) → Asked (err e) → reason ≡ tools.describe "" e → ToRetry reason
    limited :
        (out : ApifyOutput)
        → Asked (ok out)
        → is_rate_limit_message out.error ≡ true
        → reason ≡ out.error
        → ToRetry reason

  -- Why a job fails: its target is not read, the run did not succeed, or this was the last attempt.
  pub data ToFail (reason : String) : Type 0 where
    lost :
        (e : Err)
        → (get_target job.target_id db).0 ≡ err e
        → reason ≡ tools.describe "target lookup: " e
        → ToFail reason
    unsuccessful :
        (out : ApifyOutput)
        → Asked (ok out)
        → is_rate_limit_message out.error ≡ false
        → out.succeeded ≡ false
        → reason ≡ out.error
        → ToFail reason
    spent : cfg.max_attempts ≤ job.attempts → ToRetry reason → ToFail reason

  pub data Succeeded : Type 0 where
    success :
        (out : ApifyOutput)
        → Asked (ok out)
        → is_rate_limit_message out.error ≡ false
        → out.succeeded ≡ true
        → Succeeded

  -- The ways a run can leave the rows, and when each is taken.
  pub data Ended (after : List ScrapeJob) : Type 0 where
    unwritten :
        (db.faults ≡ [] → find (has_scrape_id job.id) db.scrape_jobs ≡ none)
        → after ≡ db.scrape_jobs
        → Ended after
    succeeded :
        Succeeded
        → after ≡ finished_rows job.id JobStatus.success none db.now db.scrape_jobs
        → Ended after
    failed :
        (reason : String)
        → ToFail reason
        → after
          ≡ finished_rows job.id JobStatus.failed (some (truncate_err reason)) db.now db.scrape_jobs
        → Ended after
    requeued :
        (reason : String) (d : Db)
        → ToRetry reason
        → job.attempts < cfg.max_attempts
        → after
          ≡ put_back_rows job.id
              (db.now + delay_of tools cfg job reason d)
              (finished_rows job.id JobStatus.pending (some reason) db.now db.scrape_jobs)
        → Ended after
    undelayed :
        (reason : String)
        → ToRetry reason
        → job.attempts < cfg.max_attempts
        → db.faults ≢ []
        → after ≡ finished_rows job.id JobStatus.pending (some reason) db.now db.scrape_jobs
        → Ended after

-- What a statement on the rows of a job does: it fails and writes nothing, or goes through.
abbrev Wrote : ℕ → Db → List ScrapeJob → Result ScrapeJob × Db → Type 0
Wrote i db rows x =
    (x.1.now ≡ db.now)
    × (db.faults ≡ [] → x.1.faults ≡ [])
    × (((is_ok x.0 ≡ false)
          × (db.faults ≡ [] → find (has_scrape_id i) db.scrape_jobs ≡ none)
          × (x.1.scrape_jobs ≡ db.scrape_jobs))
        ⊎ ((is_ok x.0 ≡ true)
            × (db.faults ≡ [] → find (has_scrape_id i) db.scrape_jobs ≡ none → ⊥)
            × (x.1.scrape_jobs ≡ rows)))

module _ (tools : Tools) (cfg : ScrapeConfig) (job : ScrapeJob) (before : Db) where
  -- A state that the run passes before it writes.
  abbrev Passed : Db → Type 0
  Passed db =
      (db.now ≡ before.now)
      × (db.scrape_jobs ≡ before.scrape_jobs)
      × (before.faults ≡ [] → db.faults ≡ [])

  abbrev EndsIn : Db → Type 0
  EndsIn after = Ended tools cfg job before after.scrape_jobs
