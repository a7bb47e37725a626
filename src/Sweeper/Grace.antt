-- ===== src/Sweeper/Grace.antt =====
-- orphan_sweeper.go: what a sweep may delete.
use jg_smm.Prelude.{
  ℕ, ◌+◌, ◌-◌, ◌≤◌, ◌≡◌, refl, ap, ◌⊎◌, inl, inr, Bool, true, false, ltb, List, [], ◌∷◌, Option,
  none, some, arith, any, take, keep, All, Bool-cases,
}
use jg_smm.Domain.Entities.{Worker}
use jg_smm.Store.{Db, Result, ok, err}
use jg_smm.Store.Accounts.{has_worker_id}
use jg_smm.Store.Workers.{list, everyone, page_limit}
use jg_smm.Reconciler.{Driver}
use jg_smm.Sweeper.{
  Sweep, forget, remember, after_delete, visit_orphan, visit, listed_if, sweep_each, after_known,
  after_running, sweep,
}

-- An id that may be deleted: no row among the known ones, and seen as an orphan a grace ago.
pub record IsRipe (known : List Worker) (seen : ℕ → Option ℕ) (now grace i : ℕ) : Type 0 where
  pub is_orphan : any (has_worker_id i) known ≡ false
  pub since : ℕ
  pub was_seen : seen i ≡ some since
  pub waited : since + grace ≤ now

-- Every entry of the map is an old one, or made now.
abbrev pub Extends : ℕ → (ℕ → Option ℕ) → (ℕ → Option ℕ) → Type 0
Extends now old new = (i t : ℕ) → new i ≡ some t → (t ≡ now) ⊎ (old i ≡ some t)

forget-Extends :
    (now i : ℕ) (old new : ℕ → Option ℕ) → Extends now old new → Extends now old (forget i new)
forget-Extends now i old new h j t e = ground (arith, h j t)

remember-Extends :
    (now i : ℕ) (old new : ℕ → Option ℕ)
    → Extends now old new
    → Extends now old (remember i now new)
remember-Extends now i old new h j t e = ground (arith, h j t)

module _ {G : Type 0} (driver : Driver G) (grace : ℕ) (positive : 1 ≤ grace) (known : List Worker)
    (now : ℕ) (old : ℕ → Option ℕ) where
  -- A visit keeps to the map, and deletes only a ripe id.
  pub record Visited (i : ℕ) (x : Bool × Sweep G) : Type 0 where
    pub extends : Extends now old x.1.first_seen
    pub ripe : x.0 ≡ true → IsRipe known old now grace i

  deleted-Visited :
      (i t : ℕ) (s : Sweep G) (x : Result (Unit {0}) × G)
      → Extends now old s.first_seen
      → IsRipe known old now grace i
      → Visited i (after_delete driver grace i s x)
  unfolding after_delete
  deleted-Visited i t s (err e, g) h r = record { extends = h; ripe = λ q. r }
  deleted-Visited i t s (ok u, g) h r = record {
    extends = forget-Extends now i old s.first_seen h;
    ripe = λ q. r;
  }

  IsRipe-since :
      (i t : ℕ)
      → any (has_worker_id i) known ≡ false
      → (t ≡ now) ⊎ (old i ≡ some t)
      → ltb (now - t) grace ≡ false
      → IsRipe known old now grace i
  IsRipe-since i t o (inl e) w = ground (arith, e, w, positive)
  IsRipe-since i t o (inr e) w = record {
    is_orphan = o;
    since = t;
    was_seen = e;
    waited = ground (arith, w, positive);
  }

  orphan-Visited :
      (i : ℕ) (o : Option ℕ) (s : Sweep G)
      → any (has_worker_id i) known ≡ false
      → s.first_seen i ≡ o
      → Extends now old s.first_seen
      → Visited i (visit_orphan driver grace now i o s)
  unfolding visit_orphan
  orphan-Visited i none s k e h = record {
    extends = remember-Extends now i old s.first_seen h;
    ripe = λ q. ground (arith, q);
  }
  orphan-Visited i (some t) s k e h = elim (Bool-cases (ltb (now - t) grace)) [
    | inl q ↦ rw (q, visit_orphan) (record { extends = h; ripe = λ r. ground (arith, r) })
    | inr q ↦ rw (q, visit_orphan) (deleted-Visited i t s _ h (IsRipe-since i t k (h i t e) q))
  ]

  visit-Visited :
      (i : ℕ) (s : Sweep G)
      → Extends now old s.first_seen
      → Visited i (visit driver grace known now i s)
  unfolding visit
  visit-Visited i s h = elim (Bool-cases (any (has_worker_id i) known)) [
    | inl q ↦
        rw (q, visit)
          (record {
            extends = forget-Extends now i old s.first_seen h;
            ripe = λ r. ground (arith, r);
          })
    | inr q ↦ rw (q, visit) (orphan-Visited i _ s q refl h)
  ]

  listed-IsRipe :
      (i : ℕ) (b : Bool) (ids : List ℕ)
      → (b ≡ true → IsRipe known old now grace i)
      → All (IsRipe known old now grace) ids
      → All (IsRipe known old now grace) (listed_if driver grace b i ids)
  listed-IsRipe i true ids r a = (r refl, a)
  listed-IsRipe i false ids r a = a

  sweep_each-IsRipe :
      (ids : List ℕ) (s : Sweep G)
      → Extends now old s.first_seen
      → All (IsRipe known old now grace) (sweep_each driver grace known now ids s).0
  unfolding sweep_each
  sweep_each-IsRipe [] s h = tt
  sweep_each-IsRipe (i ∷ is) s h =
      let v = visit-Visited i s h in
      listed-IsRipe i (visit driver grace known now i s).0 _ v.ripe
        (sweep_each-IsRipe is (visit driver grace known now i s).1 v.extends)

keep-everyone : (ws : List Worker) → keep everyone ws ≡ ws
keep-everyone [] = refl
keep-everyone (w ∷ ws) = ap (◌∷◌ w) (keep-everyone ws)

-- A statement on what a call returns when it does not fail.
abbrev pub OnOk : {A : Type 0} → (A → Type 0) → Result A → Type 0
OnOk P (ok a) = P a
OnOk P (err e) = Unit

listing :
    (db : Db)
    → ((list everyone 500 db).1.now ≡ db.now)
      × OnOk (λ ws. ws ≡ take 100 db.workers) (list everyone 500 db).0
unfolding list page_limit
listing db = ground (arith, keep-everyone (take 100 db.workers))

module _ {G : Type 0} (driver : Driver G) (grace : ℕ) (positive : 1 ≤ grace) (s : Sweep G) where
  known-IsRipe :
      (running : List ℕ) (g : G) (x : Result (List Worker) × Db)
      → x.1.now ≡ s.db.now
      → OnOk (λ ws. ws ≡ take 100 s.db.workers) x.0
      → OnOk
          (All (IsRipe (take 100 s.db.workers) s.first_seen s.db.now grace))
          (after_known driver grace running (record s { outside = g }) x).0
  unfolding after_known
  known-IsRipe running g (err e, db) n k = tt
  known-IsRipe running g (ok ws, db) n k =
      rw (← k, ← n)
        (sweep_each-IsRipe driver grace positive ws db.now s.first_seen running
          (record s { outside = g; db = db }) (λ i t e. inr e))

  running-IsRipe :
      (x : Result (List ℕ) × G)
      → OnOk
          (All (IsRipe (take 100 s.db.workers) s.first_seen s.db.now grace))
          (after_running driver grace s x).0
  unfolding after_running
  running-IsRipe (err e, g) = tt
  running-IsRipe (ok [], g) = tt
  running-IsRipe (ok (i ∷ is), g) =
      let (n, k) = listing s.db in known-IsRipe (i ∷ is) g (list everyone 500 s.db) n k

-- Every id that a sweep with a positive grace reports as deleted has no row among the first 100
-- workers of the listing, and stood in the sweeper's map as an orphan since a time that lies the
-- grace or more back.
pub sweep-IsRipe :
    {G : Type 0} (driver : Driver G) (grace : ℕ) (s : Sweep G)
    → 1 ≤ grace
    → OnOk
        (All (IsRipe (take 100 s.db.workers) s.first_seen s.db.now grace))
        (sweep driver grace s).0
unfolding sweep
sweep-IsRipe driver grace s positive =
    running-IsRipe driver grace positive s (driver.list_running s.outside)
