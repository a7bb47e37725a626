-- ===== src/Reconciler.antt =====
-- apps/api/internal/service/reconciler.go: the loop that drives the container platform towards the
-- desired state of the worker rows. The platform is a driver on a state of its own.
pub mod Convergence
use jg_smm.Prelude.{
  ℕ, suc, ◌+◌, ◌==◌, String, Bool, true, false, not, ltb, if◌then◌else◌, List, [], ◌∷◌, Option,
  none, some,
}
use jg_smm.Domain.Status.{DesiredState, running, stopped, other}
use jg_smm.Domain.Entities.{Worker}
use jg_smm.Store.{Db, Result, ok, err}
use jg_smm.Store.Workers.{list, everyone, update}

-- `port.K8sClient`, the operations that the reconciler and the sweeper call.
pub record Driver (G : Type 0) : Type 0 where
  pub observe : ℕ → G → Result (ℕ × Bool) × G
  pub create_worker : Worker → G → Result (Unit {0}) × G
  pub delete_worker : ℕ → G → Result (Unit {0}) × G
  pub list_running : G → Result (List ℕ) × G

pub record Plane (G : Type 0) : Type 0 where
  pub db : Db
  pub outside : G

pub data ActionKind : Type 0 where
  action_create action_delete action_refresh action_none : ActionKind

pub record Action : Type 0 where
  pub worker_id : ℕ
  pub kind : ActionKind
  pub reason : String

abbrev pub is_stale : Option ℕ → ℕ → Bool
is_stale none generation = true
is_stale (some g) generation = not (g == generation)

unfoldable pub stale_observed_gen : Worker → Bool
stale_observed_gen w = is_stale w.observed_gen w.generation

abbrev pub act : Worker → ActionKind → String → Action
act w kind reason = record { worker_id = w.id; kind = kind; reason = reason }

unfoldable pub diff_for : DesiredState → Worker → ℕ → Bool → Action
unfolding stale_observed_gen
diff_for running w observed exists =
    if not exists
    then act w action_create "absent"
    else if ltb observed w.generation
    then act w action_create "stale-generation"
    else if stale_observed_gen w
    then act w action_refresh "observed-gen-not-persisted"
    else act w action_none "in-sync"
diff_for stopped w observed exists =
    if exists
    then act w action_delete "stopped-but-running"
    else act w action_none "stopped-and-absent"
diff_for other w observed exists = act w action_none "unknown-desired-state"

unfoldable pub diff : Worker → ℕ → Bool → Action
unfolding diff_for
diff w observed exists = diff_for w.desired_state w observed exists

-- `markObserved`: a failed update is only logged.
unfoldable pub mark_observed : Worker → ℕ → Db → Db
mark_observed w gen db = (update (record w { observed_gen = some gen }) db).1

module _ {G : Type 0} (driver : Driver G) where
  unfoldable pub marked_if : Worker → ℕ → Db → Result (Unit {0}) × G → Bool × Plane G
  unfolding mark_observed
  marked_if w gen db (err e, g) = (false, record { db = db; outside = g })
  marked_if w gen db (ok u, g) = (true, record { db = mark_observed w gen db; outside = g })

  unfoldable pub apply : Worker → ℕ → Plane G → ActionKind → Bool × Plane G
  unfolding marked_if mark_observed
  apply w observed s action_none = (false, s)
  apply w observed s action_create =
      marked_if w w.generation s.db (driver.create_worker w s.outside)
  apply w observed s action_delete = marked_if w 0 s.db (driver.delete_worker w.id s.outside)
  apply w observed s action_refresh = (false, record s { db = mark_observed w observed s.db })

  unfoldable pub after_observe : Worker → Db → Result (ℕ × Bool) × G → Bool × Plane G
  unfolding apply diff
  after_observe w db (err e, g) = (false, record { db = db; outside = g })
  after_observe w db (ok (observed, exists), g) =
      let action : Action = diff w observed exists in
      apply w observed (record { db = db; outside = g }) action.kind

  -- `reconcileOne`: whether a driver operation was executed, and what it leaves.
  unfoldable pub reconcile_one : Worker → Plane G → Bool × Plane G
  unfolding after_observe
  reconcile_one w s = after_observe w s.db (driver.observe w.id s.outside)

  unfoldable pub reconcile_each : List Worker → ℕ → Plane G → ℕ × Plane G
  unfolding reconcile_one
  reconcile_each [] applied s = (applied, s)
  reconcile_each (w ∷ ws) applied s =
      let (done, s') = reconcile_one w s in
      reconcile_each ws (if done then suc applied else applied) s'

  unfoldable pub reconcile_listed : Result (List Worker) × Db → G → Result ℕ × Plane G
  unfolding reconcile_each
  reconcile_listed (err e, db) g = (err e, record { db = db; outside = g })
  reconcile_listed (ok ws, db) g =
      let (applied, s) = reconcile_each ws 0 (record { db = db; outside = g }) in (ok applied, s)

  -- `ReconcileAll`, with no cancellation.
  unfoldable pub reconcile_all : Plane G → Result ℕ × Plane G
  unfolding reconcile_listed
  reconcile_all s = reconcile_listed (list everyone 500 s.db) s.outside
