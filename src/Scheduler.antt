-- ===== src/Scheduler.antt =====
-- apps/api/internal/service/action_scheduler.go: the loop that claims due action jobs, takes each
-- through the gates, and hands it to the worker that owns its account. The components behind ports
-- (targets, the composer, the text store, the two gates, the transport) are functions on a state of
-- their own; those that the constructor lets be nil are options. `describe` is the formatting of an
-- error under a prefix by the fmt package.
pub mod Dispatch
pub mod Outcome
use jg_smm.Prelude.{
  ℕ, zero, suc, ◌+◌, ◌≡◌, String, Bool, true, false, ◌&&◌, not, ◌==◌, ltb, leb, if◌then◌else◌, List,
  [], ◌∷◌, Option, none, some,
}
use jg_smm.Truncate.{truncate_err}
use jg_smm.Domain.Status.{
  Platform, JobType, action_like, action_comment, action_report, action_reply_comment,
  action_like_comment, JobStatus,
}
use jg_smm.Domain.Entities.{Account, ActionJob}
use jg_smm.Store.{Db, Err, Result, ok, err, not_found}
use jg_smm.Store.Jobs.{
  claim_next_action_job, complete_action_job, reschedule_action_job, list_pending_jobs,
}
use jg_smm.Store.Accounts.{get_by_id}

-- `workerActionJob`, the message that a worker takes from its queue.
pub record WorkerActionJob : Type 0 where
  pub id : ℕ
  pub account_id : ℕ
  pub platform : Platform
  pub action : String
  pub target_url : String
  pub text : String
  pub attempt : ℕ

pub record Ports (G : Type 0) : Type 0 where
  pub get_target : ℕ → G → Result String × G
  pub get_text : Option (ℕ → G → Result (Option String) × G)
  pub pick : Option (Platform → ℕ → G → Result String × G)
  pub acquire : Option (ℕ → String → ℕ → ℕ → G → Result Bool × G)
  pub allow : Option (Platform → ℕ → ℕ → ℕ → G → Result (Bool × ℕ) × G)
  pub enqueue : Option (ℕ → WorkerActionJob → G → Result (Unit {0}) × G)
  pub is_blank : String → Bool
  pub describe : String → Err → String

pub record Config : Type 0 where
  pub tick_budget : ℕ
  pub cooldown : ℕ
  pub account_pace : ℕ
  pub rate_window : ℕ
  pub rate_limits : Platform → ℕ

-- The defaults of `NewActionScheduler`: 20 jobs, 60 seconds, an hour.
unfoldable pub with_defaults : Config → Config
with_defaults c = record c {
  tick_budget = if c.tick_budget == 0 then 20 else c.tick_budget;
  cooldown = if c.cooldown == 0 then 60_000_000_000 else c.cooldown;
  rate_window = if c.rate_window == 0 then 3_600_000_000_000 else c.rate_window;
}

pub record Sched (G : Type 0) : Type 0 where
  pub db : Db
  pub outside : G

-- The sentinel target under which the pacing gate claims its slot.
abbrev pub account_pace_key : String
account_pace_key = "__account_pace__"

-- The name of a job type that is no action is the type's own text.
pub action_name : JobType → String
action_name action_comment = "comment"
action_name action_reply_comment = "reply_comment"
action_name action_like_comment = "like_comment"
action_name action_like = "like"
action_name action_report = "action_report"
action_name JobType.scrape_like = "scrape_like"
action_name JobType.scrape_comment = "scrape_comment"
action_name JobType.scrape_metric = "scrape_metric"
action_name JobType.session_refresh = "session_refresh"

abbrev pub needs_text : JobType → Bool
needs_text action_comment = true
needs_text action_reply_comment = true
needs_text _ = false

module _ {G : Type 0} where
  -- A statement whose error is only logged.
  abbrev run_quiet : {A : Type 0} → (Db → Result A × Db) → Sched G → Sched G
  run_quiet m s = record s { db = (m s.db).1 }

  unfoldable pub reschedule : ActionJob → ℕ → Sched G → Sched G
  reschedule job delay s = run_quiet (reschedule_action_job job.id (s.db.now + delay)) s

  unfoldable pub fail : ActionJob → String → Sched G → Sched G
  unfolding truncate_err
  fail job reason s =
      run_quiet (complete_action_job job.id JobStatus.failed (some (truncate_err reason))) s

module _ {G : Type 0} (ports : Ports G) where
  open ports use {get_target, get_text, pick, acquire, allow, enqueue, is_blank, describe}

  compose_pool : ActionJob → Platform → G → Result String × G
  compose_pool job platform g = elim pick [
    | none ↦ (ok "", g)
    | some run ↦ run platform job.target_id g
  ]

  -- A stored body that is not blank wins; a miss or an error of the store falls back to the pool.
  compose_stored : Result (Option String) × G → ActionJob → Platform → Result String × G
  unfolding compose_pool
  compose_stored (ok (some text), g) job platform =
      if is_blank text then compose_pool job platform g else (ok text, g)
  compose_stored (ok none, g) job platform = compose_pool job platform g
  compose_stored (err e, g) job platform = compose_pool job platform g

  unfoldable pub compose_text : ActionJob → Platform → G → Result String × G
  unfolding compose_stored compose_pool
  compose_text job platform g =
      if needs_text job.type
      then elim get_text [
        | none ↦ compose_pool job platform g
        | some get ↦ compose_stored (get job.id g) job platform
      ]
      else (ok "", g)

  abbrev pub message : ActionJob → Account → String → String → WorkerActionJob
  unfolding action_name
  message job acc url text = record {
    id = job.id;
    account_id = job.account_id;
    platform = acc.platform;
    action = action_name job.type;
    target_url = url;
    text = text;
    attempt = job.attempts;
  }

  unfoldable pub publish : ActionJob → Account → ℕ → String → String → G → Result (Unit {0}) × G
  publish job acc worker url text g = elim enqueue [
    | none ↦ (err Err.unavailable, g)
    | some run ↦ run worker (message job acc url text) g
  ]
