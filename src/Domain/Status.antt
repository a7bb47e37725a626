-- ===== src/Domain/Status.antt =====
-- apps/api/internal/domain: the closed string enumerations of account.go, action.go, scrape.go and
-- platform.go. A Go string may also hold a text that is no constant: where the code tests for that,
-- the type has one more constructor, `other`, for all such texts.
use jg_smm.Prelude.{ℕ, Bool, true, false}

pub data Platform : Type 0 where
  instagram threads facebook linkedin x youtube tiktok : Platform

pub Platform-discrete : Discrete Platform
Platform-discrete = hlevel

pub data AuthStatus : Type 0 where
  authenticating needs_input authenticated auth_failed other : AuthStatus

abbrev pub is_valid_auth : AuthStatus → Bool
is_valid_auth AuthStatus.other = false
is_valid_auth _ = true

pub data AccountStatus : Type 0 where
  pending active paused quarantined dead archived : AccountStatus

pub data WorkerStatus : Type 0 where
  pending ready idle busy draining error dead quarantined : WorkerStatus

pub data DesiredState : Type 0 where
  running stopped other : DesiredState

pub data WorkerSource : Type 0 where
  manual auto : WorkerSource

pub data AttemptStatus : Type 0 where
  running success failed retry cancelled other : AttemptStatus

abbrev pub is_valid_attempt : AttemptStatus → Bool
is_valid_attempt AttemptStatus.other = false
is_valid_attempt _ = true

-- `no_class` is the empty string, the class of an attempt that did not fail.
pub data ErrorClass : Type 0 where
  transient auth rate_limit banned unknown no_class : ErrorClass

abbrev pub is_valid_class : ErrorClass → Bool
is_valid_class no_class = false
is_valid_class _ = true

-- `ErrorClass.Retryable`.
abbrev pub retryable : ErrorClass → Bool
retryable transient = true
retryable rate_limit = true
retryable _ = false

pub data JobType : Type 0 where
  scrape_like scrape_comment scrape_metric session_refresh : JobType
  action_like action_comment action_report action_reply_comment action_like_comment : JobType

abbrev pub is_action : JobType → Bool
is_action action_like = true
is_action action_comment = true
is_action action_report = true
is_action action_reply_comment = true
is_action action_like_comment = true
is_action _ = false

abbrev pub is_scrape : JobType → Bool
is_scrape scrape_like = true
is_scrape scrape_comment = true
is_scrape scrape_metric = true
is_scrape session_refresh = true
is_scrape _ = false

pub data JobStatus : Type 0 where
  pending running success failed retry cancelled : JobStatus

abbrev pub is_terminal : JobStatus → Bool
is_terminal JobStatus.success = true
is_terminal JobStatus.failed = true
is_terminal JobStatus.cancelled = true
is_terminal _ = false

-- Boolean equality of the enumerations that the code compares with `==`.
abbrev pub is_pending : JobStatus → Bool
is_pending JobStatus.pending = true
is_pending _ = false

abbrev pub is_running : DesiredState → Bool
is_running DesiredState.running = true
is_running _ = false

abbrev pub is_auto : WorkerSource → Bool
is_auto auto = true
is_auto manual = false

abbrev pub platform_number : Platform → ℕ
platform_number instagram = 0
platform_number threads = 1
platform_number facebook = 2
platform_number linkedin = 3
platform_number x = 4
platform_number youtube = 5
platform_number tiktok = 6
