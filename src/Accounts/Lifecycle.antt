-- ===== src/Accounts/Lifecycle.antt =====
-- account.go: pausing, resuming and removing an account.
pub mod Effects
pub mod Machine
use jg_smm.Prelude.{ℕ, Option, none, some, Bool, true, false, if◌then◌else◌}
use jg_smm.Prelude.Int.{ℤ, pos}
use jg_smm.Domain.Status.{AccountStatus, archived}
use jg_smm.Domain.Entities.{Account}
use jg_smm.Store.{
  Db, M, Result, ok, err, account_updated, pure, bind_result, ◌>>=◌, ◌>>◌, attempt, publish,
}
use jg_smm.Store.Accounts.{get_by_id, update, delete}
use jg_smm.Packer.{release}
use jg_smm.Accounts.{AccountSummary, to_account_view}

abbrev pub is_archived : AccountStatus → Bool
is_archived archived = true
is_archived _ = false

unfoldable pub show_account : Account → M AccountSummary
unfolding publish
show_account a = publish (account_updated a.id) >> pure (to_account_view a)

-- Whether a packer is wired; an error of the release is logged.
unfoldable pub release_quietly : Bool → ℕ → Account → M AccountSummary
unfolding show_account
release_quietly false i a db = show_account a db
release_quietly true i a db = attempt (release i) (λ r. show_account a) db

-- The view that is returned and published is the one from before the release.
unfoldable pub pause_found : Bool → ℕ → Account → M AccountSummary
unfolding release_quietly
pause_found wired i a db =
    if is_archived a.status
    then (ok (to_account_view a), db)
    else (update (record a { status = AccountStatus.paused })
          >> release_quietly wired i (record a { status = AccountStatus.paused }))
        db

unfoldable pub pause : Bool → ℕ → M AccountSummary
unfolding pause_found
pause wired i = get_by_id i >>= pause_found wired i

-- `DefaultHealthScorePolicy.ScoreMax`.
abbrev pub score_max : ℤ
score_max = pos 100

abbrev pub write_resumed : Account → M AccountSummary
unfolding show_account
write_resumed a db = (update a >> show_account a) db

unfoldable pub resume_as : AccountStatus → Account → M AccountSummary
unfolding show_account
resume_as AccountStatus.paused a db = write_resumed (record a { status = AccountStatus.active }) db
resume_as AccountStatus.quarantined a db =
    write_resumed (record a { status = AccountStatus.active; health_score = score_max }) db
resume_as _ a db = (ok (to_account_view a), db)

unfoldable pub resume : ℕ → M AccountSummary
unfolding resume_as
resume i = get_by_id i >>= λ a. resume_as a.status a

-- A release that fails stops the removal.
unfoldable pub remove_account : Bool → ℕ → M (Unit {0})
unfolding publish
remove_account false i = delete i >> publish (account_updated i)
remove_account true i = release i >> delete i >> publish (account_updated i)
