-- ===== src/Sweeper.antt =====
-- apps/api/internal/service/orphan_sweeper.go: the removal of platform resources whose worker row
-- is gone, after a grace. `first_seen` is the sweeper's own map.
pub mod Grace
use jg_smm.Prelude.{
  ℕ, ◌-◌, Bool, true, false, ◌==◌, ltb, if◌then◌else◌, List, [], ◌∷◌, Option, none, some, any,
}
use jg_smm.Domain.Entities.{Worker}
use jg_smm.Store.{Db, Result, ok, err}
use jg_smm.Store.Accounts.{has_worker_id}
use jg_smm.Store.Workers.{list, everyone}
use jg_smm.Reconciler.{Driver}

pub record Sweep (G : Type 0) : Type 0 where
  pub db : Db
  pub outside : G
  pub first_seen : ℕ → Option ℕ

-- `NewOrphanSweeper`: a grace of 0 becomes 60 seconds.
unfoldable pub grace_or_default : ℕ → ℕ
grace_or_default grace = if grace == 0 then 60_000_000_000 else grace

abbrev pub never : ℕ → Option ℕ
never i = none

abbrev pub forget : ℕ → (ℕ → Option ℕ) → ℕ → Option ℕ
forget i seen j = if j == i then none else seen j

abbrev pub remember : ℕ → ℕ → (ℕ → Option ℕ) → ℕ → Option ℕ
remember i now seen j = if j == i then some now else seen j

module _ {G : Type 0} (driver : Driver G) (grace : ℕ) where
  unfoldable pub after_delete : ℕ → Sweep G → Result (Unit {0}) × G → Bool × Sweep G
  after_delete i s (err e, g) = (false, record s { outside = g })
  after_delete i s (ok u, g) = (true, record s { outside = g; first_seen = forget i s.first_seen })

  unfoldable pub visit_orphan : ℕ → ℕ → Option ℕ → Sweep G → Bool × Sweep G
  unfolding after_delete
  visit_orphan now i none s = (false, record s { first_seen = remember i now s.first_seen })
  visit_orphan now i (some t) s =
      if ltb (now - t) grace
      then (false, s)
      else after_delete i s (driver.delete_worker i s.outside)

  -- The body of the loop: whether the id was deleted, and the state behind it.
  unfoldable pub visit : List Worker → ℕ → ℕ → Sweep G → Bool × Sweep G
  unfolding visit_orphan
  visit known now i s =
      if any (has_worker_id i) known
      then (false, record s { first_seen = forget i s.first_seen })
      else visit_orphan now i (s.first_seen i) s

  abbrev pub listed_if : Bool → ℕ → List ℕ → List ℕ
  listed_if true i ids = i ∷ ids
  listed_if false i ids = ids

  unfoldable pub sweep_each : List Worker → ℕ → List ℕ → Sweep G → List ℕ × Sweep G
  unfolding visit
  sweep_each known now [] s = ([], s)
  sweep_each known now (i ∷ is) s =
      let (deleted, s') = visit known now i s in
      let (ids, s'') = sweep_each known now is s' in (listed_if deleted i ids, s'')

  unfoldable pub after_known :
      List ℕ → Sweep G → Result (List Worker) × Db → Result (List ℕ) × Sweep G
  unfolding sweep_each
  after_known ids s (err e, db) = (err e, record s { db = db })
  after_known ids s (ok known, db) =
      let (deleted, s') = sweep_each known db.now ids (record s { db = db }) in (ok deleted, s')

  unfoldable pub after_running : Sweep G → Result (List ℕ) × G → Result (List ℕ) × Sweep G
  unfolding after_known
  after_running s (err e, g) = (err e, record s { outside = g })
  after_running s (ok [], g) = (ok [], record s { outside = g; first_seen = never })
  after_running s (ok (i ∷ is), g) =
      after_known (i ∷ is) (record s { outside = g }) (list everyone 500 s.db)

  unfoldable pub sweep : Sweep G → Result (List ℕ) × Sweep G
  unfolding after_running
  sweep s = after_running s (driver.list_running s.outside)
