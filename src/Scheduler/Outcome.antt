-- ===== src/Scheduler/Outcome.antt =====
-- What a dispatch leaves of its job: every way out of `dispatchOne`.
use jg_smm.Prelude.{ℕ, suc, ◌+◌, ◌≡◌, String, Bool, true, false, none, some, ◌⊎◌}
use jg_smm.Truncate.{truncate_err}
use jg_smm.Domain.Status.{Platform, JobStatus}
use jg_smm.Domain.Entities.{Account, ActionJob}
use jg_smm.Store.{Db, Err, Result, ok, err}
use jg_smm.Store.Jobs.{complete_action_job, reschedule_action_job}
use jg_smm.Store.Accounts.{get_by_id}
use jg_smm.Scheduler.{account_pace_key, compose_text, Ports, Config, Sched, publish}
use jg_smm.Scheduler.Dispatch.{budget_delay}

module _ {G : Type 0} (ports : Ports G) (cfg : Config) (job : ActionJob) (start : Sched G) where
  -- The database after the one read of the account.
  abbrev pub looked : Db
  looked = (get_by_id job.account_id start.db).1

  -- The target of the job and its account are there, and the account has a worker.
  pub record Found (url : String) (acc : Account) (w : ℕ) : Type 0 where
    pub target : (ports.get_target job.target_id start.outside).0 ≡ ok url
    pub account : (get_by_id job.account_id start.db).0 ≡ ok acc
    pub placed : acc.worker_id ≡ some (suc w)

  -- The outside when the text is to be composed.
  abbrev pub outside_then : G
  outside_then = (ports.get_target job.target_id start.outside).1

  -- The gates that a delivery has passed; one that is not wired, or not set, is open.
  pub data CooldownOpen (acc : Account) (url : String) : Type 0 where
    unlocked : ports.acquire ≡ none → CooldownOpen acc url
    claimed :
        (f : ℕ → String → ℕ → ℕ → G → Result Bool × G) (g g' : G)
        → ports.acquire ≡ some f
        → f job.account_id url cfg.cooldown looked.now g ≡ (ok true, g')
        → CooldownOpen acc url

  pub data BudgetOpen (acc : Account) : Type 0 where
    unlimited : ports.allow ≡ none → BudgetOpen acc
    allowed :
        (f : Platform → ℕ → ℕ → ℕ → G → Result (Bool × ℕ) × G) (wait : ℕ) (g g' : G)
        → ports.allow ≡ some f
        → f acc.platform (cfg.rate_limits acc.platform) cfg.rate_window looked.now g
          ≡ (ok (true, wait), g')
        → BudgetOpen acc

  pub data PaceOpen : Type 0 where
    unpaced : (ports.acquire ≡ none) ⊎ (cfg.account_pace ≡ 0) → PaceOpen
    claimed :
        (f : ℕ → String → ℕ → ℕ → G → Result Bool × G) (g g' : G)
        → ports.acquire ≡ some f
        → f job.account_id account_pace_key cfg.account_pace looked.now g ≡ (ok true, g')
        → PaceOpen

  -- Why a job goes back, and for how long.
  pub data Delay : ℕ → Type 0 where
    no_worker :
        (acc : Account)
        → (get_by_id job.account_id start.db).0 ≡ ok acc
        → (acc.worker_id ≡ none) ⊎ (acc.worker_id ≡ some 0)
        → Delay cfg.cooldown
    gated : (url : String) (acc : Account) (w : ℕ) → Found url acc w → Delay cfg.cooldown
    over_budget :
        (f : Platform → ℕ → ℕ → ℕ → G → Result (Bool × ℕ) × G) (url : String) (acc : Account)
        (w wait : ℕ) (g g' : G)
        → Found url acc w
        → ports.allow ≡ some f
        → f acc.platform (cfg.rate_limits acc.platform) cfg.rate_window looked.now g
          ≡ (ok (false, wait), g')
        → Delay (budget_delay ports cfg job wait)
    paced : (url : String) (acc : Account) (w : ℕ) → Found url acc w → Delay cfg.account_pace

  -- How a dispatch may end.
  pub data Outcome (s : Sched G) : Type 0 where
    requeued :
        (delay : ℕ)
        → Delay delay
        → s.db ≡ (reschedule_action_job job.id (looked.now + delay) looked).1
        → Outcome s
    no_target :
        (e : Err)
        → (ports.get_target job.target_id start.outside).0 ≡ err e
        → s.db
          ≡ (complete_action_job job.id JobStatus.failed
              (some (truncate_err (ports.describe "target lookup: " e)))
              start.db).1
        → Outcome s
    no_account :
        (e : Err)
        → (get_by_id job.account_id start.db).0 ≡ err e
        → s.db
          ≡ (complete_action_job job.id JobStatus.failed
              (some (truncate_err (ports.describe "account lookup: " e)))
              looked).1
        → Outcome s
    no_text :
        (url : String) (acc : Account) (w : ℕ) (e : Err)
        → Found url acc w
        → (compose_text ports job acc.platform outside_then).0 ≡ err e
        → s.db
          ≡ (complete_action_job job.id JobStatus.failed
              (some (truncate_err (truncate_err (ports.describe "compose: " e))))
              looked).1
        → Outcome s
    delivered :
        (url : String) (acc : Account) (w : ℕ) (text : String) (g : G)
        → Found url acc w
        → (compose_text ports job acc.platform outside_then).0 ≡ ok text
        → CooldownOpen acc url
        → BudgetOpen acc
        → PaceOpen
        → publish ports job acc (suc w) url text g ≡ (ok tt, s.outside)
        → s.db ≡ looked
        → Outcome s

  -- The state of a dispatch after the read of the account.
  abbrev at : G → Sched G
  at g = record { db = looked; outside = g }

  module _ (url : String) (acc : Account) (w : ℕ) (found : Found url acc w) where
    abbrev Composed : String → Type 0
    Composed text = (compose_text ports job acc.platform outside_then).0 ≡ ok text
