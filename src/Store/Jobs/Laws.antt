-- ===== src/Store/Jobs/Laws.antt =====
-- What the job statements do to the rows: the job that is named, every other job, and failures.
use jg_smm.Prelude.{
  ℕ, ◌≡◌, refl, ◌≢◌, ◌⊎◌, inl, inr, Bool, true, false, List, [], ◌∷◌, Option, none, some, arith,
  find, Option-cases,
}
use jg_smm.Prelude.Table.{update_where, find-update_where, find-update_other}
use jg_smm.Domain.Entities.{ActionJob}
use jg_smm.Store.{Db, ok}
use jg_smm.Store.Jobs.{has_job_id, update_job}

-- The row of a job, if it is there.
abbrev pub job_of : ℕ → Db → Option ActionJob
job_of i db = find (has_job_id i) db.jobs

module _ (i : ℕ) (f : ActionJob → ActionJob) (keeps : (j : ActionJob) → (f j).id ≡ j.id) where
  pub find-update_self :
      (jobs : List ActionJob)
      → find (has_job_id i) (update_where (has_job_id i) f jobs)
        ≡ elim (find (has_job_id i) jobs) [ none ↦ none | some j ↦ some (f j) ]
  find-update_self jobs = find-update_where (has_job_id i) f jobs (λ j h. ground (arith, keeps j))

  pub find-update_ne :
      (k : ℕ) (jobs : List ActionJob)
      → i ≢ k
      → find (has_job_id k) (update_where (has_job_id i) f jobs) ≡ find (has_job_id k) jobs
  find-update_ne k jobs h =
      find-update_other (has_job_id i) (has_job_id k) f jobs (λ j e. ground arith)
        (λ j e. ground (arith, keeps j))

  pub job_of-update_ne : (k : ℕ) (db : Db) → i ≢ k → job_of k (update_job i f db).1 ≡ job_of k db
  job_of-update_ne k db h = ground (arith, find-update_ne k db.jobs h)

  -- A statement on a job fails and leaves its row, or rewrites it.
  pub job_of-update :
      (db : Db)
      → (job_of i (update_job i f db).1 ≡ job_of i db)
        ⊎ ((j : ActionJob) × (job_of i db ≡ some j) × (job_of i (update_job i f db).1 ≡ some (f j)))
  job_of-update db = elim (Option-cases (job_of i db)) [
    | inl e ↦ inl (ground (arith, find-update_self db.jobs))
    | inr (j, e) ↦ cases db.faults refl j e
  ]
    where
      cases :
          (faults : List Bool)
          → db.faults ≡ faults
          → (j : ActionJob) → job_of i db ≡ some j
          → (job_of i (update_job i f db).1 ≡ job_of i db)
            ⊎ ((j : ActionJob) × (job_of i db ≡ some j)
                × (job_of i (update_job i f db).1 ≡ some (f j)))
      cases (true ∷ rest) q j e = inl (ground arith)
      cases [] q j e = inr (j, e, ground (arith, find-update_self db.jobs))
      cases (false ∷ rest) q j e = inr (j, e, ground (arith, find-update_self db.jobs))

  -- With no failure and the row there, the statement returns the row that it wrote.
  pub update_job_ok :
      (db : Db) (j : ActionJob)
      → db.faults ≡ []
      → job_of i db ≡ some j
      → ((update_job i f db).0 ≡ ok (f j)) × (job_of i (update_job i f db).1 ≡ some (f j))
  update_job_ok db j q e =
      (ground (arith, find-update_self db.jobs), ground (arith, find-update_self db.jobs))
