-- ===== src/Store/Jobs/Claims.antt =====
-- repository/action.go, `ClaimNextActionJob`: which job of an account a claim takes.
use jg_smm.Prelude.{
  ℕ, ◌≤◌, ◌≡◌, find, any, false, true, List, [], ◌∷◌, Option, none, some, keep, All,
}
use jg_smm.Prelude.Table.{update_where}
use jg_smm.Domain.Entities.{ActionJob}
use jg_smm.Store.{Db, Result, ok, err, not_found}
use jg_smm.Store.Jobs.{has_job_id, is_claimable, claimed}

abbrev pub OnSome : (ActionJob → Type 0) → Option ActionJob → Type 0
OnSome P none = Unit
OnSome P (some k) = P k

abbrev pub NotBefore : ActionJob → ActionJob → Type 0
NotBefore k m = k.scheduled_at ≤ m.scheduled_at

-- A row of the table, under its own id.
abbrev pub IsRow : List ActionJob → ActionJob → Type 0
IsRow js k = find (has_job_id k.id) js ≡ some k

-- No two rows have one id.
abbrev pub UniqueIds : List ActionJob → Type 0
UniqueIds [] = Unit
UniqueIds (j ∷ js) = (any (has_job_id j.id) js ≡ false) × UniqueIds js

module _ (account worker : ℕ) (db : Db) where
  abbrev pub due : List ActionJob
  due = keep (is_claimable account db.now) db.jobs

  -- A claim finds nothing and writes nothing, or takes a job that no due job of the account precedes.
  pub data Claim (x : Result ActionJob × Db) : Type 0 where
    nothing_due : due ≡ [] → x ≡ (err not_found, db) → Claim x
    earliest :
        (k : ActionJob)
        → find (has_job_id k.id) db.jobs ≡ some k
        → is_claimable account db.now k ≡ true
        → All (NotBefore k) due
        → x.0 ≡ ok (claimed worker db.now k)
        → x.1 ≡ record db { jobs = update_where (has_job_id k.id) (claimed worker db.now) db.jobs }
        → Claim x
