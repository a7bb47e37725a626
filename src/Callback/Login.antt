-- ===== src/Callback/Login.antt =====
-- apps/api/internal/service/job.go, `RecordAuthOutcome`: what a worker reports of a login. The account
-- store is wired.
use jg_smm.Prelude.{ℕ, String, Bool, true, false, Option, none, some}
use jg_smm.Domain.Status.{
  AuthStatus, needs_input, authenticated, auth_failed, is_valid_auth, AccountStatus,
}
use jg_smm.Domain.Entities.{Account}
use jg_smm.Store.{M, validation, throw, pure, ◌>>=◌, ◌>>◌}
use jg_smm.Store.Accounts.{get_by_id, update}

pub record AuthOutcome : Type 0 where
  pub account_id : ℕ
  pub auth_status : AuthStatus
  pub handle : Option String
  pub error : Option String

abbrev pub new_or {ℓ} : {A : Type ℓ} → Option A → Option A → Option A
new_or none old = old
new_or (some a) old = some a

abbrev pub activated : AccountStatus → AccountStatus
activated AccountStatus.pending = AccountStatus.active
activated s = s

-- The account with the outcome in it.
unfoldable pub with_outcome : AuthStatus → AuthOutcome → ℕ → Account → Account
with_outcome authenticated o now a = record a {
  auth_status = authenticated;
  last_verified = some now;
  handle = new_or o.handle a.handle;
  status = activated a.status;
}
with_outcome auth_failed o now a = record a {
  auth_status = auth_failed;
  last_error = new_or o.error a.last_error;
}
with_outcome needs_input o now a = record a {
  auth_status = needs_input;
  last_error = new_or o.error a.last_error;
}
with_outcome s o now a = record a { auth_status = s }

unfoldable pub write_outcome : AuthOutcome → Account → M (Unit {0})
unfolding with_outcome
write_outcome o a db = (update (with_outcome o.auth_status o db.now a) >> pure tt) db

unfoldable pub record_if : Bool → AuthOutcome → M (Unit {0})
unfolding write_outcome
record_if false o = throw validation
record_if true o = get_by_id o.account_id >>= write_outcome o

-- `RecordAuthOutcome`.
unfoldable pub record_auth_outcome : AuthOutcome → M (Unit {0})
unfolding record_if
record_auth_outcome o = record_if (is_valid_auth o.auth_status) o
