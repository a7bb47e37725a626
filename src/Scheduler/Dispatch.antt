-- ===== src/Scheduler/Dispatch.antt =====
-- action_scheduler.go, `dispatchOne`, `claimAny` and `Tick`. Each step of `dispatchOne` is a function
-- of its own, from the last to the first, and ends the dispatch in a reschedule, a failure, or the
-- next step.
use jg_smm.Prelude.{
  ℕ, zero, suc, String, Bool, true, false, ◌==◌, ltb, if◌then◌else◌, List, [], ◌∷◌, Option, none,
  some,
}
use jg_smm.Truncate.{truncate_err}
use jg_smm.Domain.Status.{Platform}
use jg_smm.Domain.Entities.{Account, ActionJob}
use jg_smm.Store.{Db, Err, Result, ok, err, not_found}
use jg_smm.Store.Jobs.{claim_next_action_job, list_pending_jobs}
use jg_smm.Store.Accounts.{get_by_id}
use jg_smm.Scheduler.{
  Ports, Config, Sched, account_pace_key, reschedule, fail, compose_text, publish,
}

module _ {G : Type 0} (ports : Ports G) (cfg : Config) (job : ActionJob) where
  -- The state with the outside as a port left it.
  abbrev pub with_outside : Sched G → G → Sched G
  with_outside s g = record s { outside = g }

  abbrev pub after_publish : Sched G → Result (Unit {0}) × G → Sched G
  after_publish s (err e, g) = reschedule job cfg.cooldown (with_outside s g)
  after_publish s (ok u, g) = with_outside s g

  unfoldable pub send : Account → ℕ → String → String → Sched G → Sched G
  send acc worker url text s = after_publish s (publish ports job acc worker url text s.outside)

  abbrev pub after_pace : Account → ℕ → String → String → Sched G → Result Bool × G → Sched G
  after_pace acc worker url text s (err e, g) = reschedule job cfg.account_pace (with_outside s g)
  after_pace acc worker url text s (ok false, g) =
      reschedule job cfg.account_pace (with_outside s g)
  after_pace acc worker url text s (ok true, g) = send acc worker url text (with_outside s g)

  abbrev pub pace_with :
      Option (ℕ → String → ℕ → ℕ → G → Result Bool × G)
      → Account
      → ℕ
      → String
      → String
      → Sched G
      → Sched G
  pace_with none acc worker url text s = send acc worker url text s
  pace_with (some acquire) acc worker url text s =
      if ltb 0 cfg.account_pace
      then after_pace acc worker url text s
          (acquire job.account_id account_pace_key cfg.account_pace s.db.now s.outside)
      else send acc worker url text s

  -- Gate 3: one action of an account in `account_pace`, if that is set.
  unfoldable pub pace_gate : Account → ℕ → String → String → Sched G → Sched G
  unfolding send
  pace_gate acc worker url text s = pace_with ports.acquire acc worker url text s

  -- A wait of 0 stands for every duration that is not positive.
  abbrev pub budget_delay : ℕ → ℕ
  budget_delay retry_after = if retry_after == 0 then cfg.rate_window else retry_after

  abbrev pub after_budget :
      Account → ℕ → String → String → Sched G → Result (Bool × ℕ) × G → Sched G
  after_budget acc worker url text s (err e, g) = reschedule job cfg.cooldown (with_outside s g)
  after_budget acc worker url text s (ok (false, retry_after), g) =
      reschedule job (budget_delay retry_after) (with_outside s g)
  after_budget acc worker url text s (ok (true, retry_after), g) =
      pace_gate acc worker url text (with_outside s g)

  abbrev pub budget_with :
      Option (Platform → ℕ → ℕ → ℕ → G → Result (Bool × ℕ) × G)
      → Account
      → ℕ
      → String
      → String
      → Sched G
      → Sched G
  budget_with none acc worker url text s = pace_gate acc worker url text s
  budget_with (some allow) acc worker url text s =
      after_budget acc worker url text s
        (allow acc.platform (cfg.rate_limits acc.platform) cfg.rate_window s.db.now s.outside)

  -- Gate 2: the budget of the platform for the window.
  unfoldable pub budget_gate : Account → ℕ → String → String → Sched G → Sched G
  unfolding pace_gate
  budget_gate acc worker url text s = budget_with ports.allow acc worker url text s

  abbrev pub after_cooldown : Account → ℕ → String → String → Sched G → Result Bool × G → Sched G
  after_cooldown acc worker url text s (err e, g) = reschedule job cfg.cooldown (with_outside s g)
  after_cooldown acc worker url text s (ok false, g) =
      reschedule job cfg.cooldown (with_outside s g)
  after_cooldown acc worker url text s (ok true, g) =
      budget_gate acc worker url text (with_outside s g)

  abbrev pub cooldown_with :
      Option (ℕ → String → ℕ → ℕ → G → Result Bool × G)
      → Account
      → ℕ
      → String
      → String
      → Sched G
      → Sched G
  cooldown_with none acc worker url text s = budget_gate acc worker url text s
  cooldown_with (some acquire) acc worker url text s =
      after_cooldown acc worker url text s
        (acquire job.account_id url cfg.cooldown s.db.now s.outside)

  -- Gate 1: the (account, target) pair is cooling down.
  unfoldable pub cooldown_gate : Account → ℕ → String → String → Sched G → Sched G
  unfolding budget_gate
  cooldown_gate acc worker url text s = cooldown_with ports.acquire acc worker url text s

  abbrev pub after_compose : Account → ℕ → String → Sched G → Result String × G → Sched G
  after_compose acc worker url s (err e, g) =
      fail job (truncate_err (ports.describe "compose: " e)) (with_outside s g)
  after_compose acc worker url s (ok text, g) = cooldown_gate acc worker url text (with_outside s g)

  unfoldable pub with_worker : Account → ℕ → String → Sched G → Sched G
  unfolding cooldown_gate
  with_worker acc worker url s =
      after_compose acc worker url s (compose_text ports job acc.platform s.outside)

  -- A job whose account has no worker goes back to the queue.
  abbrev pub with_account : String → Account → Option ℕ → Sched G → Sched G
  with_account url acc none s = reschedule job cfg.cooldown s
  with_account url acc (some zero) s = reschedule job cfg.cooldown s
  with_account url acc (some (suc w)) s = with_worker acc (suc w) url s

  abbrev pub after_account : String → Sched G → Result Account × Db → Sched G
  after_account url s (err e, db) =
      fail job (ports.describe "account lookup: " e) (record s { db = db })
  after_account url s (ok acc, db) = with_account url acc acc.worker_id (record s { db = db })

  abbrev pub after_target : Sched G → Result String × G → Sched G
  after_target s (err e, g) = fail job (ports.describe "target lookup: " e) (with_outside s g)
  after_target s (ok url, g) = after_account url (with_outside s g) (get_by_id job.account_id s.db)

  unfoldable pub dispatch_one : Sched G → Sched G
  unfolding with_worker
  dispatch_one s = after_target s (ports.get_target job.target_id s.outside)

-- `claimAny`: the first job of the listing that is due, claimed through its account's queue. A job is
-- due here when its time is before the clock's; the claim itself takes the account's oldest job.
-- Losing the race to another tick shows as `not_found`: the next job is tried.
abbrev pub after_claim :
    Result ActionJob × Db → (Db → Result ActionJob × Db) → Result ActionJob × Db
after_claim (err not_found, db) next = next db
after_claim (ok j, db) next = (ok j, db)
after_claim (err e, db) next = (err e, db)

pub claim_each : List ActionJob → Db → Result ActionJob × Db
claim_each [] db = (err not_found, db)
claim_each (j ∷ js) db = elim (ltb j.scheduled_at db.now) [
  | true ↦ after_claim (claim_next_action_job j.account_id j.worker_id db) (claim_each js)
  | false ↦ claim_each js db
]

abbrev pub after_list : Result (List ActionJob) × Db → Result ActionJob × Db
after_list (err e, db) = (err e, db)
after_list (ok js, db) = claim_each js db

unfoldable pub claim_any : Config → Db → Result ActionJob × Db
unfolding claim_each
claim_any cfg db = after_list (list_pending_jobs cfg.tick_budget db)

-- `Tick`, over the jobs that the budget still allows. `none` is the return without an error.
module _ {G : Type 0} (ports : Ports G) (cfg : Config) where
  abbrev pub after_round :
      Sched G → (Sched G → Option Err × Sched G) → Result ActionJob × Db → Option Err × Sched G
  after_round s next (err not_found, db) = (none, record s { db = db })
  after_round s next (ok job, db) = next (dispatch_one ports cfg job (record s { db = db }))
  after_round s next (err e, db) = (some e, record s { db = db })

  pub tick_rounds : ℕ → Sched G → Option Err × Sched G
  tick_rounds zero s = (none, s)
  tick_rounds (suc budget) s = after_round s (tick_rounds budget) (claim_any cfg s.db)

  unfoldable pub tick : Sched G → Option Err × Sched G
  unfolding tick_rounds
  tick s = tick_rounds cfg.tick_budget s
