-- ===== src/Domain/Entities.antt =====
-- apps/api/internal/domain/worker.go, action.go and scrape.go: the rows that the services read and write.
-- An id is a number, 0 for the empty string (the code only compares ids). A time is a number of
-- nanoseconds. Coordinates, which are floats, and ciphertexts are left out.
use jg_smm.Prelude.{ℕ, String, Bool, true, false, Option, List}
use jg_smm.Prelude.Int.{ℤ}
use jg_smm.Domain.Status.{
  Platform, AuthStatus, AccountStatus, WorkerStatus, DesiredState, WorkerSource, AttemptStatus,
  ErrorClass, JobType, JobStatus, archived,
}
use jg_smm.Domain.Role.{Role}

pub record Account : Type 0 where
  pub id : ℕ
  pub platform : Platform
  pub username : String
  pub auth_status : AuthStatus
  pub handle : Option String
  pub last_verified : Option ℕ
  pub proxy_group_id : Option ℕ
  pub health_score : ℤ
  pub status : AccountStatus
  pub tags : List String
  pub worker_id : Option ℕ
  pub last_used_at : Option ℕ
  pub last_checked : Option ℕ
  pub last_error : Option String
  pub created_at : ℕ

-- `Account.IsPackable`.
abbrev pub is_packable_status : AccountStatus → Bool
is_packable_status archived = false
is_packable_status AccountStatus.dead = false
is_packable_status AccountStatus.quarantined = false
is_packable_status _ = true

abbrev pub is_packable : Account → Bool
is_packable a = is_packable_status a.status

pub record Worker : Type 0 where
  pub id : ℕ
  pub name : String
  pub container_id : Option String
  pub novnc_service : Option String
  pub desired_state : DesiredState
  pub source : WorkerSource
  pub region : String
  pub location : Option String
  pub status : WorkerStatus
  pub generation : ℕ
  pub observed_gen : Option ℕ
  pub browser_status : String
  pub current_job_id : Option ℕ
  pub last_heartbeat : Option ℕ
  pub queue_depth : ℕ
  pub restart_count : ℕ
  pub created_at : ℕ

pub record ActionJob : Type 0 where
  pub id : ℕ
  pub type : JobType
  pub target_id : ℕ
  pub account_id : ℕ
  pub worker_id : ℕ
  pub template_id : ℕ
  pub status : JobStatus
  pub scheduled_at : ℕ
  pub started_at : Option ℕ
  pub finished_at : Option ℕ
  pub attempts : ℕ
  pub error : Option String
  pub created_at : ℕ

pub record ActionLog : Type 0 where
  pub job_id : ℕ
  pub attempt : ℕ
  pub status : AttemptStatus
  pub verified : Bool
  pub worker_id : ℕ
  pub rendered_text : String
  pub response_excerpt : Option String
  pub error_class : Option ErrorClass
  pub screenshot_url : Option String
  pub duration_ms : ℕ
  pub ts : ℕ

-- `port.User`, without the hash of the password.
pub record User : Type 0 where
  pub id : ℕ
  pub email : String
  pub name : String
  pub role : Role
  pub created_at : ℕ

pub record AuthSession : Type 0 where
  pub id : ℕ
  pub user_id : ℕ
  pub token_hash : ℕ
  pub expires_at : ℕ
  pub revoked_at : Option ℕ

-- `Heartbeat`, without the two loads, which are floats.
pub record Heartbeat : Type 0 where
  pub worker_id : ℕ
  pub ts : ℕ
  pub jobs_done : ℕ

pub record ScrapeJob : Type 0 where
  pub id : ℕ
  pub type : JobType
  pub target_id : ℕ
  pub account_id : Option ℕ
  pub worker_id : Option ℕ
  pub status : JobStatus
  pub scheduled_at : ℕ
  pub started_at : Option ℕ
  pub finished_at : Option ℕ
  pub attempts : ℕ
  pub error : Option String
  pub created_at : ℕ

-- `Target`, without its kind and its JSON.
pub record Target : Type 0 where
  pub id : ℕ
  pub platform : Platform
  pub external_id : String
  pub url : String
  pub post_id : Option ℕ
  pub comment_id : Option ℕ
  pub created_at : ℕ
