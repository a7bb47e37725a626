-- ===== src/Reconciler/Convergence.antt =====
-- reconciler.go: what a second pass over a worker finds to do.
use jg_smm.Prelude.{ℕ, ◌≡◌, true, false, Option, some, find}
use jg_smm.Domain.Status.{DesiredState, running, stopped}
use jg_smm.Domain.Entities.{Worker}
use jg_smm.Store.{Db, ok}
use jg_smm.Store.Accounts.{has_worker_id}
use jg_smm.Reconciler.{
  Driver, Plane, ActionKind, action_create, action_delete, action_refresh, action_none,
  reconcile_one,
}

-- What the reconciler relies on of a driver: looking changes nothing, a worker that it created is
-- seen at the generation it was created at, and a worker that it deleted is gone.
pub record IsFaithful {G : Type 0} (driver : Driver G) : Type 0 where
  pub create_seen :
      (w : Worker) (g : G)
      → (driver.create_worker w g).0 ≡ ok tt
      → driver.observe w.id (driver.create_worker w g).1
        ≡ (ok (w.generation, true), (driver.create_worker w g).1)
  pub delete_seen :
      (i : ℕ) (g : G)
      → (driver.delete_worker i g).0 ≡ ok tt
      → driver.observe i (driver.delete_worker i g).1
        ≡ (ok (0, false), (driver.delete_worker i g).1)

abbrev pub worker_of : ℕ → Db → Option Worker
worker_of i db = find (has_worker_id i) db.workers

abbrev pub observed_at : ℕ → Worker → Worker
observed_at gen w = record w { observed_gen = some gen }

module _ {G : Type 0} (driver : Driver G) where
  -- A second pass over a worker changes nothing.
  abbrev pub Settled : ℕ → Plane G → Type 0
  Settled i s = (v : Worker) × (worker_of i s.db ≡ some v) × (reconcile_one driver v s ≡ (false, s))

-- The desired state that a decision stands for.
abbrev pub Wants : ActionKind → DesiredState → Type 0
Wants action_create d = d ≡ running
Wants action_delete d = d ≡ stopped
Wants action_refresh d = d ≡ running
Wants action_none d = Unit
