-- ===== src/Examples/Callbacks.antt =====
-- Callbacks on the sample rows.
use jg_smm.Prelude.{ℕ, ◌≡◌, refl, ◌≢◌, true, false, arith, List, [], ◌∷◌, none, some}
use jg_smm.Prelude.Int.{pos}
use jg_smm.Prelude.Text.{codes}
use jg_smm.Domain.Status.{AccountStatus, success, failed, auth, transient, no_class}
use jg_smm.Domain.Entities.{Account, is_packable}
use jg_smm.Health.{default_policy, is_terminal}
use jg_smm.Store.Jobs.{upsert_action_log}
use jg_smm.Health.{should_quarantine, apply_verdict}
use jg_smm.Store.{Db, err, ok, driver, account_updated}
use jg_smm.Store.Jobs.Laws.{job_of}
use jg_smm.Store.Accounts.Laws.{account_of, IsPlaced}
use jg_smm.Callback.{
  record_parsed, AttemptRecord, apply_to_job, judged, score_account, record_attempt,
}
use jg_smm.Callback.Retry.{verdict_row, apply_to_job_lem}
use jg_smm.Callback.Attempt.{record_attempt_error}
use jg_smm.Callback.Score.{Moved, score_account_lem}
use jg_smm.Callback.AttemptId.{parse_attempt_id}
use jg_smm.Examples.{sample_account, sample_job, sample_db}

abbrev callback : AttemptRecord
callback = record {
  attempt_id = codes "j:1";
  status = failed;
  screenshot = none;
  error = some "timeout";
  worker_id = 3;
  rendered_text = "";
  response_excerpt = none;
  duration_ms = 40;
}

abbrev unkeyed : AttemptRecord
unkeyed = record callback { attempt_id = codes "j:0" }

-- Every job id reads as that of the sample job.
abbrev sample_uuid : List ℕ → ℕ
sample_uuid s = 5

abbrev faulty_db : Db
faulty_db = record sample_db { faults = true ∷ [] }

unkeyed_key : parse_attempt_id unkeyed.attempt_id ≡ none
unfolding parse_attempt_id
unkeyed_key = refl

callback_fails : (record_attempt sample_uuid callback faulty_db).0 ≡ err driver
unfolding record_attempt parse_attempt_id record_parsed upsert_action_log
callback_fails = refl

record_attempt_error_example :
    (record_attempt sample_uuid callback faulty_db).1.accounts ≡ faulty_db.accounts
record_attempt_error_example =
    record_attempt_error sample_uuid callback faulty_db driver callback_fails

apply_to_job_lem_example :
    ((apply_to_job 5 1 failed transient none sample_db).0 ≡ ok tt)
    × (job_of 5 (apply_to_job 5 1 failed transient none sample_db).1
        ≡ some (verdict_row 1_000 1 failed transient none sample_job))
    × ((k : ℕ)
        → 5 ≢ k
        → job_of k (apply_to_job 5 1 failed transient none sample_db).1 ≡ job_of k sample_db)
apply_to_job_lem_example = apply_to_job_lem 5 1 failed transient none sample_db sample_job refl refl

sample_account-IsPlaced : IsPlaced sample_account sample_db
sample_account-IsPlaced = record { own_slot = refl; on_worker = refl }

score_account_lem_example :
    let after = (score_account failed auth 7 sample_db).1 in
    ((moved : AccountStatus) × (account_of 7 after
        ≡ some (record sample_account { health_score = pos 80; status = moved }))
      × Moved failed auth sample_account.status moved 80)
    × ((k : ℕ) → 7 ≢ k → account_of k after ≡ account_of k sample_db)
    × (after ≡ record sample_db { accounts = after.accounts; frames = account_updated 7 ∷ [] })
score_account_lem_example =
    score_account_lem failed auth sample_account 100 sample_db refl refl sample_account-IsPlaced
      refl (omega arith)

still_packable : is_packable (judged failed auth sample_account) ≡ true
unfolding should_quarantine apply_verdict is_terminal
still_packable = refl

abbrev dead_account : Account
dead_account = record sample_account { status = AccountStatus.dead; health_score = pos 0 }

success_is_not_terminal : is_terminal default_policy success no_class ≡ false
unfolding is_terminal
success_is_not_terminal = refl
