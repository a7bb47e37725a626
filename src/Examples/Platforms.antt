-- ===== src/Examples/Platforms.antt =====
-- The reconciler and the sweeper on a platform that is a map from workers to generations.
use jg_smm.Prelude.{
  ℕ, ◌==◌, if◌then◌else◌, [], ◌∷◌, Option, none, some, true, false, arith, All, Bool,
}
use jg_smm.Store.{Result, ok}
use jg_smm.Reconciler.{Driver, Plane}
use jg_smm.Sweeper.{Sweep, sweep}
use jg_smm.Sweeper.Grace.{IsRipe, OnOk, sweep-IsRipe}
use jg_smm.Examples.{sample_worker, sample_db}

abbrev Fleet : Type 0
Fleet = ℕ → Option ℕ

abbrev seen_at : Option ℕ → Result (ℕ × Bool)
seen_at none = ok (0, false)
seen_at (some n) = ok (n, true)

abbrev fleet_driver : Driver Fleet
fleet_driver = record {
  observe = λ i g. (seen_at (g i), g);
  create_worker = λ w g. (ok tt, λ j. if j == w.id then some w.generation else g j);
  delete_worker = λ i g. (ok tt, λ j. if j == i then none else g j);
  list_running = λ g. (ok (3 ∷ 9 ∷ []), g);
}

abbrev empty_plane : Plane Fleet
empty_plane = record { db = sample_db; outside = λ i. none }

-- Worker 9, which has no row, was seen at 100.
abbrev orphan_sweep : Sweep Fleet
orphan_sweep = record {
  db = sample_db;
  outside = λ i. some 1;
  first_seen = λ i. if i == 9 then some 100 else none;
}

sweep-IsRipe_example :
    OnOk
      (All (IsRipe (sample_worker ∷ []) orphan_sweep.first_seen 1_000 60))
      (sweep fleet_driver 60 orphan_sweep).0
sweep-IsRipe_example = sweep-IsRipe fleet_driver 60 orphan_sweep (omega arith)
