-- ===== src/Store/Workers/Owners.antt =====
-- repository/worker.go, `Claim`: which row a container takes, and that it takes no other's.
use jg_smm.Prelude.{
  ℕ, ◌≡◌, refl, ◌∙◌, sym, ap, leb, Bool, true, false, List, [], ◌∷◌, Option, none, some, String,
  find, find-pass, keep, arith, inl, inr, ◌⊎◌, Bool-cases, Option-cases,
}
use jg_smm.Prelude.Table.{update_where}
use jg_smm.Domain.Entities.{Worker}
use jg_smm.Store.{Db, M, Result, ok, err, not_found, bind_result, is_ok, query_with}
use jg_smm.Store.Accounts.{has_worker_id}
use jg_smm.Store.Workers.{has_container, get_by_id, get_by_container_id}
use jg_smm.Store.Workers.Claiming.{
  WorkerClaim, is_free, older_worker, oldest_worker, found_worker, select_free, bound, handed_back,
  claim_bind, commit, bind_row, is_open_to, bind_if, claim_free, after_id, claim_named, after_owned,
  undo_on_error, claim,
}

abbrev pub Among : Worker → List Worker → Type 0
Among v [] = ⊥
Among v (w ∷ ws) = (v ≡ w) ⊎ Among v ws

-- How a claim can end: refused, with no row changed; renewed, with the row that the container has; or
-- bound to a row that was free or the container's own, the only one that changes.
pub data Claimed (c : WorkerClaim) (before : List Worker) (x : Result Worker × Db) : Type 0 where
  refused : is_ok x.0 ≡ false → Claimed c before x
  renewed :
      (v : Worker)
      → Among v before
      → has_container c.container_id v ≡ true
      → x.0 ≡ ok v
      → x.1.workers ≡ before
      → Claimed c before x
  taken :
      (v : Worker)
      → Among v before
      → is_open_to c.container_id v.container_id ≡ true
      → x.0 ≡ ok (handed_back c v)
      → x.1.workers ≡ update_where (has_worker_id v.id) (bound c) before
      → Claimed c before x

find-Among : (p : Worker → Bool) (ws : List Worker) (v : Worker) → find p ws ≡ some v → Among v ws
find-Among p [] v h = ground (arith, h)
find-Among p (w ∷ ws) v h = elim (Bool-cases (p w)) [
  | inl e ↦ inl (ground (arith, h, e))
  | inr e ↦ inr (find-Among p ws v (ground (arith, h, e)))
]

Among-keep :
    (p : Worker → Bool) (ws : List Worker) (v : Worker)
    → Among v (keep p ws)
    → Among v ws × (p v ≡ true)
Among-keep p [] v h = elim h [ ]
Among-keep p (w ∷ ws) v h = kept (p w) refl (Among-keep p ws v) h
  where
    kept :
        (b : Bool)
        → p w ≡ b
        → (Among v (keep p ws) → Among v ws × (p v ≡ true))
        → Among v (elim b [ true ↦ w ∷ keep p ws | false ↦ keep p ws ])
        → Among v (w ∷ ws) × (p v ≡ true)
    kept true e k (inl q) = (inl q, ap p q ∙ e)
    kept true e k (inr r) = let (m, s) = k r in (inr m, s)
    kept false e k r = let (m, s) = k r in (inr m, s)

oldest-Among : (ws : List Worker) (v : Worker) → oldest_worker ws ≡ some v → Among v ws
unfolding oldest_worker
oldest-Among [] v h = ground (arith, h)
oldest-Among (w ∷ ws) v h = chosen (oldest_worker ws) (oldest-Among ws v) (ground (arith, h))
  where
    chosen :
        (o : Option Worker) → (o ≡ some v → Among v ws) → older_worker w o ≡ v → Among v (w ∷ ws)
    chosen none e q = inl (sym q)
    chosen (some u) e q = elim (Bool-cases (leb w.created_at u.created_at)) [
      | inl l ↦ inl (ground (arith, l, q))
      | inr l ↦ inr (e (ap some (ground (arith, l, q))))
    ]

claim_bind-rows :
    (c : WorkerClaim) (i : ℕ) (db : Db)
    → is_ok (claim_bind c i db).0 ≡ true
    → (claim_bind c i db).1.workers ≡ update_where (has_worker_id i) (bound c) db.workers
unfolding claim_bind
claim_bind-rows c i db h = ground (arith, h)

commit-rows :
    {A : Type 0} (a : A) (db : Db)
    → ((commit a db).1.workers ≡ db.workers)
      × ((is_ok (commit a db).0 ≡ false) ⊎ ((commit a db).0 ≡ ok a))
unfolding commit
commit-rows a db = ground arith

module _ (c : WorkerClaim) (before : List Worker) where
  bound-Claimed :
      (v : Worker) (x : Result (Unit {0}) × Db)
      → Among v before
      → is_open_to c.container_id v.container_id ≡ true
      → (is_ok x.0 ≡ true → x.1.workers ≡ update_where (has_worker_id v.id) (bound c) before)
      → Claimed c before (bind_result x (λ u. commit (handed_back c v)))
  bound-Claimed v (err e, db) m o w = refused refl
  bound-Claimed v (ok u, db) m o w =
      let (rows, r) = commit-rows (handed_back c v) db in
      elim r [ inl q ↦ refused q | inr q ↦ taken v m o q (rows ∙ w refl) ]

  bind_row-Claimed :
      (v : Worker) (db : Db)
      → Among v before
      → is_open_to c.container_id v.container_id ≡ true
      → db.workers ≡ before
      → Claimed c before (bind_row c v db)
  unfolding bind_row
  bind_row-Claimed v db m o w =
      bound-Claimed v (claim_bind c v.id db) m o
        (λ h. claim_bind-rows c v.id db h ∙ ap (update_where (has_worker_id v.id) (bound c)) w)

  bind_if-Claimed :
      (open_to : Bool) (v : Worker) (db : Db)
      → Among v before
      → is_open_to c.container_id v.container_id ≡ open_to
      → db.workers ≡ before
      → Claimed c before (bind_if open_to c v db)
  unfolding bind_if
  bind_if-Claimed false v db m o w = refused refl
  bind_if-Claimed true v db m o w = bind_row-Claimed v db m o w

  -- What a lookup of a row answers, and that it writes nothing.
  abbrev pub Looked : (Worker → Type 0) → Result Worker × Db → Type 0
  Looked P x = (x.1.workers ≡ before) × ((v : Worker) → x.0 ≡ ok v → Among v before × P v)

  free-open : (v : Worker) → is_free v ≡ true → is_open_to c.container_id v.container_id ≡ true
  free-open v h = elim (Option-cases v.container_id) [
    | inl e ↦ rw e refl
    | inr (o, e) ↦ ground (arith, h, e)
  ]

  free_found-Claimed :
      (x : Result Worker × Db)
      → Looked (λ v. is_free v ≡ true) x
      → Claimed c before (bind_result x (bind_row c))
  free_found-Claimed (err e, db) l = refused refl
  free_found-Claimed (ok v, db) (w, h) =
      let (m, f) = h v refl in bind_row-Claimed v db m (free-open v f) w

  found_worker-Looked :
      (o : Option Worker) (P : Worker → Type 0) (db : Db)
      → db.workers ≡ before
      → ((v : Worker) → o ≡ some v → Among v before × P v)
      → Looked P (found_worker o db)
  found_worker-Looked none P db w h = (w, λ v q. ground (arith, q))
  found_worker-Looked (some u) P db w h = (w, λ v q. h v (ground (arith, q)))

free_rows :
    (db : Db)
    → ((select_free db).1.workers ≡ db.workers)
      × ((v : Worker)
          → (select_free db).0 ≡ ok v
          → oldest_worker (keep is_free db.workers) ≡ some v)
unfolding select_free
free_rows db = ground arith

id_rows :
    (i : ℕ) (db : Db)
    → ((get_by_id i db).1.workers ≡ db.workers)
      × ((v : Worker) → (get_by_id i db).0 ≡ ok v → find (has_worker_id i) db.workers ≡ some v)
unfolding get_by_id
id_rows i db = ground arith

container_rows :
    (name : String) (db : Db)
    → ((get_by_container_id name db).1.workers ≡ db.workers)
      × ((v : Worker)
          → (get_by_container_id name db).0 ≡ ok v
          → find (has_container name) db.workers ≡ some v)
unfolding get_by_container_id
container_rows name db = ground arith

module _ (c : WorkerClaim) where
  claim_free-Claimed :
      (before : List Worker) (db : Db) → db.workers ≡ before → Claimed c before (claim_free c db)
  unfolding claim_free
  claim_free-Claimed before db w =
      let (same, h) = free_rows db in
      free_found-Claimed c before (select_free db) (
        same ∙ w,
        λ v q.
            let (m, f) =
              Among-keep is_free db.workers v (oldest-Among (keep is_free db.workers) v (h v q)) in
            (rw (← w) m, f),
      )

  after_id-Claimed :
      (before : List Worker) (x : Result Worker × Db)
      → x.1.workers ≡ before
      → ((v : Worker) → x.0 ≡ ok v → Among v before)
      → Claimed c before (after_id c x)
  unfolding after_id
  after_id-Claimed before (ok v, db) w h =
      bind_if-Claimed c before (is_open_to c.container_id v.container_id) v db (h v refl) refl w
  after_id-Claimed before (err not_found, db) w h = claim_free-Claimed before db w
  after_id-Claimed before (err e, db) w h = refused refl

  claim_named-Claimed :
      (before : List Worker) (i : Option ℕ) (db : Db)
      → db.workers ≡ before
      → Claimed c before (claim_named i c db)
  unfolding claim_named
  claim_named-Claimed before none db w = claim_free-Claimed before db w
  claim_named-Claimed before (some i) db w =
      let (same, h) = id_rows i db in
      after_id-Claimed before (get_by_id i db) (same ∙ w)
        (λ v q. rw (← w) (find-Among (has_worker_id i) db.workers v (h v q)))

  commit-Claimed :
      (before : List Worker) (v : Worker) (db : Db)
      → db.workers ≡ before
      → Among v before
      → has_container c.container_id v ≡ true
      → Claimed c before (commit v db)
  commit-Claimed before v db w m o =
      let (rows, r) = commit-rows v db in
      elim r [ inl q ↦ refused q | inr q ↦ renewed v m o q (rows ∙ w) ]

  after_owned-Claimed :
      (before : List Worker) (i : Option ℕ) (x : Result Worker × Db)
      → x.1.workers ≡ before
      → ((v : Worker) → x.0 ≡ ok v → find (has_container c.container_id) before ≡ some v)
      → Claimed c before (after_owned i c x)
  unfolding after_owned
  after_owned-Claimed before i (ok v, db) w h =
      let found = h v refl in
      commit-Claimed before v db w (find-Among (has_container c.container_id) before v found)
        (find-pass (has_container c.container_id) before v found)
  after_owned-Claimed before i (err not_found, db) w h = claim_named-Claimed before i db w
  after_owned-Claimed before i (err e, db) w h = refused refl

-- A claim that is refused leaves the rows alone.
undone-Claimed :
    (c : WorkerClaim) (before : Db) (x : Result Worker × Db)
    → Claimed c before.workers x
    → Claimed c before.workers (undo_on_error before x)
      × (is_ok (undo_on_error before x).0 ≡ false
          → (undo_on_error before x).1.workers ≡ before.workers)
unfolding undo_on_error
undone-Claimed c before (ok v, db) k = (k, λ h. ground (arith, h))
undone-Claimed c before (err e, db) k = (refused refl, λ h. refl)

module _ (row_id : String → Option ℕ) (c : WorkerClaim) where
  -- The transaction that `claim` runs.
  abbrev transaction : M Worker
  transaction db =
      undo_on_error db
        (after_owned (row_id c.container_id) c (get_by_container_id c.container_id db))

  transaction-Claimed :
      (db : Db)
      → Claimed c db.workers (transaction db)
        × (is_ok (transaction db).0 ≡ false → (transaction db).1.workers ≡ db.workers)
  transaction-Claimed db =
      let (w, h) = container_rows c.container_id db in
      undone-Claimed c db _ (
        after_owned-Claimed c db.workers (row_id c.container_id)
          (get_by_container_id c.container_id db) w h)

  query-Claimed :
      (faults : List Bool) (db : Db)
      → Claimed c db.workers (query_with faults transaction db)
        × (is_ok (query_with faults transaction db).0 ≡ false
            → (query_with faults transaction db).1.workers ≡ db.workers)
  query-Claimed [] db = transaction-Claimed db
  query-Claimed (true ∷ rest) db = (refused refl, λ h. refl)
  query-Claimed (false ∷ rest) db = transaction-Claimed (record db { faults = rest })

-- A claim that answers without an error gives back the row that the container has already, and changes
-- nothing; or it binds one row, that was nobody's or this container's, and changes no other. One
-- that answers with an error, wherever it fails, leaves the rows as they were.
pub claim-Claimed :
    (row_id : String → Option ℕ) (c : WorkerClaim) (db : Db)
    → Claimed c db.workers (claim row_id c db)
      × (is_ok (claim row_id c db).0 ≡ false → (claim row_id c db).1.workers ≡ db.workers)
unfolding claim
claim-Claimed row_id c db = query-Claimed row_id c db.faults db
