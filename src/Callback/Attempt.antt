-- ===== src/Callback/Attempt.antt =====
-- job.go, `RecordAttempt`: the callback as a whole, with failing store calls in it.
use jg_smm.Prelude.{
  ℕ, ◌≡◌, refl, ◌⊎◌, inl, inr, false, List, Option, none, some, arith, All, Bool-cases,
}
use jg_smm.Domain.Status.{ErrorClass, is_valid_attempt}
use jg_smm.Domain.Entities.{ActionLog}
use jg_smm.Store.{Db, Err, Result, ok, err, validation, bind_result}
use jg_smm.Store.Jobs.{upsert_action_log, narrowed}
use jg_smm.Callback.AttemptId.{parse_attempt_id}
use jg_smm.Callback.{AttemptRecord, log_of, after_log, record_parsed, record_key, record_attempt}
use jg_smm.Callback.Log.{
  IsVerified, upsert-IsVerified, upsert-Upserted, accounts-after_log, logs-record_parsed,
}

record_parsed-IsVerified :
    (job n : ℕ) (r : AttemptRecord) (class : ErrorClass) (db : Db)
    → All IsVerified db.logs
    → All IsVerified (record_parsed job n r class db).1.logs
record_parsed-IsVerified job n r class db h = elim (logs-record_parsed job n r class db) [
  | inl e ↦ rw e h
  | inr e ↦ rw e (upsert-IsVerified (narrowed (log_of job n r class)) db.now db.logs refl h)
]

record_key-IsVerified :
    (uuid_value : List ℕ → ℕ) (key : Option (List ℕ × ℕ)) (r : AttemptRecord) (class : ErrorClass)
    (db : Db)
    → All IsVerified db.logs
    → All IsVerified (record_key uuid_value key r class db).1.logs
record_key-IsVerified uuid_value none r class db h = h
record_key-IsVerified uuid_value (some (job, n)) r class db h =
    record_parsed-IsVerified (uuid_value job) n r class db h

-- If in every row of the log `verified` says whether the status is SUCCESS, then the same holds after
-- any callback, accepted, refused or failed half way.
pub record_attempt-IsVerified :
    (uuid_value : List ℕ → ℕ) (r : AttemptRecord) (db : Db)
    → All IsVerified db.logs
    → All IsVerified (record_attempt uuid_value r db).1.logs
unfolding record_attempt
record_attempt-IsVerified uuid_value r db h = elim (Bool-cases (is_valid_attempt r.status)) [
  | inl e ↦ rw e (record_key-IsVerified uuid_value (parse_attempt_id r.attempt_id) r _ db h)
  | inr e ↦ rw e h
]

-- A callback with an unknown status, or with a key that is not "<jobId>:<attempt>", is refused with
-- a validation error and changes nothing at all.
pub record_attempt_refused :
    (uuid_value : List ℕ → ℕ) (r : AttemptRecord) (db : Db)
    → (is_valid_attempt r.status ≡ false) ⊎ (parse_attempt_id r.attempt_id ≡ none)
    → record_attempt uuid_value r db ≡ (err validation, db)
unfolding record_attempt
record_attempt_refused uuid_value r db h = elim (Bool-cases (is_valid_attempt r.status)) [
  | inl e ↦ rw e (ground arith)
  | inr e ↦ rw e
]

record_parsed_error :
    (job n : ℕ) (r : AttemptRecord) (class : ErrorClass) (e : Err) (db : Db)
    (x : Result ActionLog × Db)
    → x.1.accounts ≡ db.accounts
    → (bind_result x (λ _. after_log job n r class)).0 ≡ err e
    → (bind_result x (λ _. after_log job n r class)).1.accounts ≡ db.accounts
record_parsed_error job n r class e db (ok l, db') p h =
    ground (arith, accounts-after_log job n r class e db')
record_parsed_error job n r class e db (err e', db') p h = p

record_key_error :
    (uuid_value : List ℕ → ℕ) (key : Option (List ℕ × ℕ)) (r : AttemptRecord) (class : ErrorClass)
    (e : Err) (db : Db)
    → (record_key uuid_value key r class db).0 ≡ err e
    → (record_key uuid_value key r class db).1.accounts ≡ db.accounts
unfolding record_parsed
record_key_error uuid_value none r class e db h = refl
record_key_error uuid_value (some (job, n)) r class e db h =
    let new : ActionLog = log_of (uuid_value job) n r class in
    record_parsed_error (uuid_value job) n r class e db (upsert_action_log new db)
      (upsert-Upserted new db).0 h

-- A callback that is answered by an error, which the worker sends again, has charged no account: the
-- accounts are as before, whichever store call failed.
pub record_attempt_error :
    (uuid_value : List ℕ → ℕ) (r : AttemptRecord) (db : Db) (e : Err)
    → (record_attempt uuid_value r db).0 ≡ err e
    → (record_attempt uuid_value r db).1.accounts ≡ db.accounts
unfolding record_attempt
record_attempt_error uuid_value r db e = elim (Bool-cases (is_valid_attempt r.status)) [
  | inl v ↦ rw v (record_key_error uuid_value (parse_attempt_id r.attempt_id) r _ e db)
  | inr v ↦ rw v (λ h. refl)
]
