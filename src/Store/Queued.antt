-- ===== src/Store/Queued.antt =====
-- The statements by which an action is queued: UpsertTarget of apps/api/internal/repository/scrape.go
-- and CreateActionJob of action.go, with the foreign keys of the jobs; and the two stores beside the
-- database that keep a comment for its job and the jobs of one call together.
use jg_smm.Prelude.{
  ℕ, ◌==◌, ◌&&◌, ◌||◌, not, Bool, if◌then◌else◌, List, [], ◌∷◌, ◌++◌, Option, none, some, String,
  find, any,
}
use jg_smm.Prelude.Table.{update_where}
use jg_smm.Prelude.Text.{codes}
use jg_smm.Domain.Status.{platform_number}
use jg_smm.Domain.Entities.{ActionJob, Target}
use jg_smm.Store.{Db, M, ok, err, driver, query}
use jg_smm.Store.Accounts.{has_id, has_worker_id}
use jg_smm.Store.Workers.{same_text}
use jg_smm.Store.Scrapes.{has_target_id}

-- The row that holds the pair of a platform and an external id.
abbrev pub same_target : Target → Target → Bool
same_target new t =
    platform_number t.platform == platform_number new.platform
    && same_text (codes t.external_id) (codes new.external_id)

abbrev pub refreshed : Target → Target → Target
refreshed new t = record t { url = new.url }

abbrev pub upsert_target_at : (Db → ℕ) → Target → Option Target → M Target
upsert_target_at new_id new (some t) db = (
  ok (refreshed new t),
  record db { targets = update_where (same_target new) (refreshed new) db.targets },
)
upsert_target_at new_id new none db = (
  ok (record new { id = new_id db; created_at = db.now }),
  record db { targets = record new { id = new_id db; created_at = db.now } ∷ db.targets },
)

unfoldable pub upsert_target : (Db → ℕ) → Target → M Target
unfolding update_where
upsert_target new_id new =
    query λ db. upsert_target_at new_id new (find (same_target new) db.targets) db

-- A job refers to its target, its account and, if it has one, its worker.
abbrev pub refers : ActionJob → Db → Bool
refers j db =
    any (has_target_id j.target_id) db.targets
    && (any (has_id j.account_id) db.accounts
        && (j.worker_id == 0 || any (has_worker_id j.worker_id) db.workers))

abbrev pub numbered : ℕ → ℕ → ActionJob → ActionJob
numbered i now j = record j {
  id = i;
  started_at = none;
  finished_at = none;
  attempts = 0;
  error = none;
  created_at = now;
}

unfoldable pub create_action_job : (Db → ℕ) → ActionJob → M ActionJob
create_action_job new_id j = query λ db. if not (refers j db) then (err driver, db) else (
  ok (numbered (new_id db) db.now j),
  record db { jobs = db.jobs ++ (numbered (new_id db) db.now j ∷ []) },
)

unfoldable pub put_text : ℕ → String → M (Unit {0})
put_text i text = query λ db. (ok tt, record db { texts = db.texts ++ ((i, text) ∷ []) })

unfoldable pub create_batch : List ℕ → M (Unit {0})
create_batch ids = query λ db. (ok tt, record db { batches = ids ∷ db.batches })
