-- ===== src/Scraping.antt =====
-- apps/api/internal/service/scrape_scheduler.go: the loop that claims due scrape jobs, runs each, and
-- records how it ended. The runner, the random jitter and the formatting of an error are functions;
-- logging is left out, and the context is not cancelled.
pub mod Outcome
use jg_smm.Prelude.{
  ℕ, zero, suc, ◌+◌, ◌-◌, ◌*◌, ltb, leb, ◌==◌, ◌||◌, Bool, true, false, if◌then◌else◌, List, [],
  ◌∷◌, Option, none, some, String,
}
use jg_smm.Prelude.Text.{codes, contains}
use jg_smm.Truncate.{truncate_err}
use jg_smm.Domain.Status.{JobStatus}
use jg_smm.Domain.Entities.{ScrapeJob, Target}
use jg_smm.Store.{Db, M, Err, Result, ok, err, not_found, bind_result, handle_result}
use jg_smm.Store.Scrapes.{
  complete_scrape_job, reschedule_scrape_job, list_pending_scrapes, claim_next_scrape_job,
  get_target,
}

pub record ScrapeConfig : Type 0 where
  pub jitter_min : ℕ
  pub jitter_max : ℕ
  pub max_attempts : ℕ
  pub backoff_base : ℕ
  pub tick_budget : ℕ

-- The defaults of `NewScrapeSchedulerWithActor`; the upper bound of the jitter is compared with the
-- lower one after that has its default.
abbrev pub jitter_min_or : ℕ → ℕ
jitter_min_or n = if n == 0 then 5_000_000_000 else n

unfoldable pub scrape_defaults : ScrapeConfig → ScrapeConfig
scrape_defaults c = record {
  jitter_min = jitter_min_or c.jitter_min;
  jitter_max =
      if ltb c.jitter_max (jitter_min_or c.jitter_min) then 15_000_000_000 else c.jitter_max;
  max_attempts = if ltb c.max_attempts 1 then 3 else c.max_attempts;
  backoff_base = if c.backoff_base == 0 then 120_000_000_000 else c.backoff_base;
  tick_budget = if c.tick_budget == 0 then 20 else c.tick_budget;
}

-- `port.ApifyOutput`: its status, and its error text.
pub record ApifyOutput : Type 0 where
  pub succeeded : Bool
  pub error : String

-- What the scheduler is built with: the runner, if there is one, the number that the random source
-- draws below a bound, and the texts of errors.
pub record Tools : Type 0 where
  pub runner : Option (ScrapeJob → Target → Db → Result ApifyOutput)
  pub draw : ℕ → Db → ℕ
  pub describe : String → Err → String

-- `contains` of this file, which tests for a non-empty part.
unfoldable pub is_rate_limit_message : String → Bool
unfolding contains
is_rate_limit_message s =
    contains (codes "rate limit") (codes s)
    || (contains (codes "429") (codes s) || contains (codes "RATE_LIMIT") (codes s))

-- A statement whose error is only logged.
abbrev pub write_quietly : {A : Type 0} → Result A × Db → Db
write_quietly x = x.1

unfoldable pub fail_scrape : ScrapeJob → String → Db → Db
unfolding truncate_err
fail_scrape job reason db =
    write_quietly (complete_scrape_job job.id JobStatus.failed (some (truncate_err reason)) db)

module _ (tools : Tools) (cfg : ScrapeConfig) where
  unfoldable pub jitter : Db → ℕ
  jitter db = cfg.jitter_min + tools.draw (cfg.jitter_max - cfg.jitter_min + 1) db

  unfoldable pub delay_of : ScrapeJob → String → Db → ℕ
  unfolding jitter is_rate_limit_message
  delay_of job reason db =
      if is_rate_limit_message reason
      then jitter db + cfg.backoff_base * job.attempts
      else jitter db

  -- The job is put back only where it could be made PENDING.
  unfoldable pub after_pending : ScrapeJob → ℕ → Result ScrapeJob × Db → Db
  after_pending job next (ok j, db) = write_quietly (reschedule_scrape_job job.id next db)
  after_pending job next (err e, db) = db

  unfoldable pub requeue : ScrapeJob → String → Db → Db
  unfolding after_pending fail_scrape delay_of
  requeue job reason db =
      if leb cfg.max_attempts job.attempts
      then fail_scrape job reason db
      else after_pending job (db.now + delay_of job reason db)
          (complete_scrape_job job.id JobStatus.pending (some reason) db)

  unfoldable pub after_answer : Bool → ScrapeJob → ApifyOutput → Db → Db
  unfolding requeue
  after_answer true job out db = requeue job out.error db
  after_answer false job out db =
      if out.succeeded
      then write_quietly (complete_scrape_job job.id JobStatus.success none db)
      else fail_scrape job out.error db

  unfoldable pub after_run : ScrapeJob → Db → Result ApifyOutput → Db
  unfolding after_answer
  after_run job db (err e) = requeue job (tools.describe "" e) db
  after_run job db (ok out) = after_answer (is_rate_limit_message out.error) job out db

  unfoldable pub run_on :
      (ScrapeJob → Target → Db → Result ApifyOutput) → ScrapeJob → Result Target × Db → Db
  unfolding after_run
  run_on run job (err e, db) = fail_scrape job (tools.describe "target lookup: " e) db
  run_on run job (ok target, db) = after_run job db (run job target db)

  unfoldable pub run_with :
      Option (ScrapeJob → Target → Db → Result ApifyOutput) → ScrapeJob → Db → Db
  unfolding run_on requeue
  run_with none job db = requeue job "no apify runner configured" db
  run_with (some run) job db = run_on run job (get_target job.target_id db)

  -- `runOne`.
  unfoldable pub run_one : ScrapeJob → Db → Db
  unfolding run_with
  run_one job db = run_with tools.runner job db

  -- A claim that finds nothing goes on to the next pending job.
  unfoldable pub after_claim : M ScrapeJob → Result ScrapeJob × Db → Result ScrapeJob × Db
  after_claim rest (ok j, db) = (ok j, db)
  after_claim rest (err not_found, db) = rest db
  after_claim rest (err e, db) = (err e, db)

  unfoldable pub claim_of : Bool → Option ℕ → M ScrapeJob → M ScrapeJob
  unfolding after_claim
  claim_of false account rest db = rest db
  claim_of true none rest db = rest db
  claim_of true (some a) rest db = after_claim rest (claim_next_scrape_job a db)

  unfoldable pub claim_first : ℕ → List ScrapeJob → M ScrapeJob
  unfolding claim_of
  claim_first now [] db = (err not_found, db)
  claim_first now (j ∷ js) db =
      claim_of (leb j.scheduled_at now) j.account_id (claim_first now js) db

  -- `claimAny`.
  unfoldable pub claim_any : M ScrapeJob
  unfolding claim_first
  claim_any db =
      bind_result (list_pending_scrapes cfg.tick_budget db)
        (λ pending db'. claim_first db'.now pending db')

  abbrev pub after_any :
      (Db → Result (Unit {0}) × Db) → Result ScrapeJob × Db → Result (Unit {0}) × Db
  unfolding run_one
  after_any rest (ok job, db) = rest (run_one job db)
  after_any rest (err not_found, db) = (ok tt, db)
  after_any rest (err e, db) = (err e, db)

  -- `tick`, with the claims that are left of the budget.
  unfoldable pub tick_from : ℕ → M (Unit {0})
  unfolding claim_any run_one
  tick_from zero db = (ok tt, db)
  tick_from (suc n) db = after_any (tick_from n) (claim_any db)

  unfoldable pub tick : M (Unit {0})
  unfolding tick_from
  tick db = tick_from cfg.tick_budget db
