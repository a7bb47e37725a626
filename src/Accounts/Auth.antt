-- ===== src/Accounts/Auth.antt =====
-- account.go: the messages that the operator's login sends to the worker of an account. The Boolean
-- argument says whether the control channel is wired; marshalling a message does not fail.
pub mod Inputs
use jg_smm.Prelude.{ℕ, String, Bool, true, false, Option, none, some, List, [], ◌∷◌}
use jg_smm.Domain.Status.{AuthStatus, authenticating, needs_input}
use jg_smm.Domain.Entities.{Account, Worker}
use jg_smm.Store.{
  Db, M, Result, ok, err, conflict, unavailable, validation, auth_login, auth_input, auth_import,
  throw, pure, bind_result, ◌>>=◌, ◌>>◌, publish_control,
}
use jg_smm.Store.Accounts.{get_by_id, update}
use jg_smm.Store.Workers
use jg_smm.Accounts.{AccountSummary, to_account_view}
use jg_smm.Accounts.Lifecycle.{show_account}

-- The login state is written after the message is out.
unfoldable pub log_in_on : ℕ → Account → Worker → Option String → M AccountSummary
unfolding show_account
log_in_on i a w none = throw conflict
log_in_on i a w (some url) =
    publish_control w.id (auth_login i a.platform)
    >> update (record a { auth_status = authenticating })
    >> show_account (record a { auth_status = authenticating })

unfoldable pub log_in_from : ℕ → Account → Option ℕ → M AccountSummary
unfolding log_in_on
log_in_from i a none = throw conflict
log_in_from i a (some w) = Workers.get_by_id w >>= λ v. log_in_on i a v v.novnc_service

-- `Login`.
unfoldable pub login : Bool → ℕ → M AccountSummary
unfolding log_in_from
login false i = throw unavailable
login true i = get_by_id i >>= λ a. log_in_from i a a.worker_id

abbrev pub awaits_input : AuthStatus → Bool
awaits_input authenticating = true
awaits_input needs_input = true
awaits_input _ = false

unfoldable pub input_if : Bool → ℕ → ℕ → Account → String → M AccountSummary
input_if false w i a value = throw conflict
input_if true w i a value =
    publish_control w (auth_input i a.platform value) >> pure (to_account_view a)

unfoldable pub input_on : Option ℕ → ℕ → Account → String → M AccountSummary
unfolding input_if
input_on none i a value = throw conflict
input_on (some w) i a value = input_if (awaits_input a.auth_status) w i a value

unfoldable pub submit_input : Bool → ℕ → String → M AccountSummary
unfolding input_on
submit_input false i value = throw unavailable
submit_input true i value = get_by_id i >>= λ a. input_on a.worker_id i a value

unfoldable pub import_on : Option ℕ → ℕ → Account → List ℕ → M (Unit {0})
import_on none i a session = throw conflict
import_on (some w) i a session = publish_control w (auth_import i a.platform session)

-- `is_object` says whether a text is a JSON object, which the empty text is not.
unfoldable pub import_checked : Bool → ℕ → List ℕ → M (Unit {0})
unfolding import_on
import_checked false i session = throw validation
import_checked true i session = get_by_id i >>= λ a. import_on a.worker_id i a session

unfoldable pub import_session : (List ℕ → Bool) → Bool → ℕ → List ℕ → M (Unit {0})
unfolding import_checked
import_session is_object false i session = throw unavailable
import_session is_object true i [] = throw validation
import_session is_object true i (c ∷ s) = import_checked (is_object (c ∷ s)) i (c ∷ s)
