-- ===== src/Containers/Removal.antt =====
-- container.go, `Delete`: what is left of a container and of its accounts.
use jg_smm.Prelude.{
  ℕ, ◌≡◌, refl, ◌∙◌, ap, ◌⊎◌, some, find, find-pass, ==_iff, Bool, true, false, List, [], ◌∷◌, any,
  keep, count, arith, inl, inr,
}
use jg_smm.Prelude.Table.{update_where}
use jg_smm.Domain.Status.{DesiredState, is_running}
use jg_smm.Domain.Entities.{Account, Worker}
use jg_smm.Store.{Db, Err, Result, ok, err, is_ok, bind_result, publish, provision_updated}
use jg_smm.Store.Accounts.{has_worker_id, is_on, unassigned, list_by_worker}
use jg_smm.Store.Workers
use jg_smm.Store.Workers.{lacks_worker_id, overwrite}
use jg_smm.Packer.Reap.{release-workers, unassign_lem}
use jg_smm.Containers.{
  Ports, detach, detach_each, after_stop, drop_row, delete_listed, delete_container,
}

-- What a removal leaves: without an error the row and every reference to it are gone, and no other row
-- of the workers is touched; with one the row is there as before.
pub record Removed {A : Type 0} (i : ℕ) (before : List Worker) (x : Result A × Db) : Type 0 where
  pub row_gone : is_ok x.0 ≡ true → x.1.workers ≡ keep (lacks_worker_id i) before
  pub none_on : is_ok x.0 ≡ true → count (is_on i) x.1.accounts ≡ 0
  pub row_stays :
      is_ok x.0 ≡ false → any (has_worker_id i) x.1.workers ≡ any (has_worker_id i) before

keep-update :
    (i : ℕ) (w : Worker) (ws : List Worker)
    → keep (lacks_worker_id i) (update_where (has_worker_id i) (overwrite w) ws)
      ≡ keep (lacks_worker_id i) ws
unfolding update_where
keep-update i w [] = refl
keep-update i w (v ∷ ws) = ground (arith, keep-update i w ws)

any-update :
    (i : ℕ) (w : Worker) (ws : List Worker)
    → any (has_worker_id i) (update_where (has_worker_id i) (overwrite w) ws)
      ≡ any (has_worker_id i) ws
unfolding update_where
any-update i w [] = refl
any-update i w (v ∷ ws) = ground (arith, any-update i w ws)

count-unassigned :
    (i : ℕ) (accounts : List Account)
    → count (is_on i) (update_where (is_on i) unassigned accounts) ≡ 0
unfolding update_where
count-unassigned i [] = refl
count-unassigned i (a ∷ rest) = ground (arith, count-unassigned i rest)

detach-workers :
    (packs : Bool) (ports : Ports) (i : ℕ) (db : Db)
    → (detach ports packs i db).workers ≡ db.workers
unfolding detach
detach-workers true ports i db = release-workers i db
detach-workers false ports i db = (unassign_lem i db).0

detach_each-workers :
    (ports : Ports) (accounts : List Account) (db : Db)
    → (detach_each ports accounts db).workers ≡ db.workers
unfolding detach_each
detach_each-workers ports [] db = refl
detach_each-workers ports (a ∷ rest) db =
    detach_each-workers ports rest (detach ports ports.packs a.id db)
    ∙ detach-workers ports.packs ports a.id db

-- The last statement, whatever came before it.
record Last (i : ℕ) (before : Db) (x : Result (Unit {0}) × Db) : Type 0 where
  pub gone : is_ok x.0 ≡ true → x.1.workers ≡ keep (lacks_worker_id i) before.workers
  pub unreferenced :
      is_ok x.0 ≡ true → x.1.accounts ≡ update_where (is_on i) unassigned before.accounts
  pub stays : is_ok x.0 ≡ false → x.1.workers ≡ before.workers

delete-Last : (i : ℕ) (db : Db) → Last i db (Workers.delete i db)
unfolding Workers.delete
delete-Last i db = ground arith

deleted-Last :
    (i : ℕ) (db : Db) (x : Result (Unit {0}) × Db)
    → Last i db x
    → Last i db (bind_result x (λ u. publish (provision_updated i)))
unfolding publish
deleted-Last i db (ok u, db') l = record {
  gone = l.gone;
  unreferenced = l.unreferenced;
  stays = λ h. ground (arith, h);
}
deleted-Last i db (err e, db') l = l

-- The row is deleted as it is, or after it was stopped.
Last-Removed :
    (i : ℕ) (before : List Worker) (db : Db) (x : Result (Unit {0}) × Db)
    → keep (lacks_worker_id i) db.workers ≡ keep (lacks_worker_id i) before
    → any (has_worker_id i) db.workers ≡ any (has_worker_id i) before
    → Last i db x
    → Removed i before x
Last-Removed i before db x k a l = record {
  row_gone = λ h. l.gone h ∙ k;
  none_on = λ h. ap (count (is_on i)) (l.unreferenced h) ∙ count-unassigned i db.accounts;
  row_stays = λ h. ap (any (has_worker_id i)) (l.stays h) ∙ a;
}

update-workers :
    (w : Worker) (db : Db)
    → ((Workers.update w db).1.workers ≡ db.workers)
      ⊎ ((Workers.update w db).1.workers
          ≡ update_where (has_worker_id w.id) (overwrite w) db.workers)
unfolding Workers.update
update-workers w db = ground arith

deleted-Removed :
    (i : ℕ) (before : List Worker) (db : Db)
    → keep (lacks_worker_id i) db.workers ≡ keep (lacks_worker_id i) before
    → any (has_worker_id i) db.workers ≡ any (has_worker_id i) before
    → Removed i before (bind_result (Workers.delete i db) (λ u. publish (provision_updated i)))
deleted-Removed i before db k a =
    Last-Removed i before db _ k a (deleted-Last i db (Workers.delete i db) (delete-Last i db))

after_stop-Removed :
    (ports : Ports) (i : ℕ) (before : List Worker) (x : Result Worker × Db)
    → keep (lacks_worker_id i) x.1.workers ≡ keep (lacks_worker_id i) before
    → any (has_worker_id i) x.1.workers ≡ any (has_worker_id i) before
    → Removed i before (after_stop ports i x)
unfolding after_stop
after_stop-Removed ports i before (err e, db) k a = record {
  row_gone = λ h. ground (arith, h);
  none_on = λ h. ground (arith, h);
  row_stays = λ h. a;
}
after_stop-Removed ports i before (ok v, db) k a = deleted-Removed i before db k a

stopped-Removed :
    (ports : Ports) (w : Worker) (db : Db)
    → Removed w.id db.workers (after_stop ports w.id (Workers.update w db))
stopped-Removed ports w db = elim (update-workers w db) [
  | inl e ↦
      after_stop-Removed ports w.id db.workers (Workers.update w db)
        (ap (keep (lacks_worker_id w.id)) e) (ap (any (has_worker_id w.id)) e)
  | inr e ↦
      after_stop-Removed ports w.id db.workers (Workers.update w db)
        (ap (keep (lacks_worker_id w.id)) e ∙ keep-update w.id w db.workers)
        (ap (any (has_worker_id w.id)) e ∙ any-update w.id w db.workers)
]

drop_row-Removed :
    (ports : Ports) (running : Bool) (w : Worker) (i : ℕ) (db : Db)
    → w.id ≡ i
    → Removed i db.workers (drop_row ports running w i db)
unfolding drop_row
drop_row-Removed ports true w i db e =
    rw (← e) (stopped-Removed ports (record w { desired_state = DesiredState.stopped }) db)
drop_row-Removed ports false w i db e = deleted-Removed i db.workers db refl refl

failed-Removed :
    {A : Type 0} (i : ℕ) (before : List Worker) (e : Err) (db : Db)
    → db.workers ≡ before
    → Removed {A = A} i before (err e, db)
failed-Removed i before e db w = record {
  row_gone = λ h. ground (arith, h);
  none_on = λ h. ground (arith, h);
  row_stays = λ h. ap (any (has_worker_id i)) w;
}

listed-Removed :
    (ports : Ports) (w : Worker) (i : ℕ) (before : List Worker) (x : Result (List Account) × Db)
    → w.id ≡ i
    → x.1.workers ≡ before
    → Removed i before (bind_result x (delete_listed ports w i))
unfolding delete_listed
listed-Removed ports w i before (err e, db) q k = failed-Removed i before e db k
listed-Removed ports w i before (ok accounts, db) q k =
    rw (← (detach_each-workers ports accounts db ∙ k))
      (drop_row-Removed ports (is_running w.desired_state) w i (detach_each ports accounts db) q)

list_by_worker-workers : (i : ℕ) (db : Db) → (list_by_worker i db).1.workers ≡ db.workers
unfolding list_by_worker
list_by_worker-workers i db = ground arith

worker_row :
    (i : ℕ) (db : Db)
    → ((Workers.get_by_id i db).1.workers ≡ db.workers)
      × ((w : Worker)
          → (Workers.get_by_id i db).0 ≡ ok w
          → find (has_worker_id i) db.workers ≡ some w)
unfolding Workers.get_by_id
worker_row i db = ground arith

found-Removed :
    (ports : Ports) (i : ℕ) (before : List Worker) (x : Result Worker × Db)
    → x.1.workers ≡ before
    → ((w : Worker) → x.0 ≡ ok w → find (has_worker_id i) before ≡ some w)
    → Removed i before
        (bind_result x (λ w db. bind_result (list_by_worker i db) (delete_listed ports w i)))
found-Removed ports i before (err e, db) k h = failed-Removed i before e db k
found-Removed ports i before (ok w, db) k h =
    let same = (==_iff w.id i).0 (find-pass (has_worker_id i) before w (h w refl)) in
    listed-Removed ports w i before (list_by_worker i db) same (list_by_worker-workers i db ∙ k)

-- When `Delete` answers without an error, exactly the rows with the id of the container are gone and no
-- account names it any more, even where a release failed; when it answers with an error, the row is
-- there if and only if it was before.
pub delete_container-Removed :
    (ports : Ports) (i : ℕ) (db : Db) → Removed i db.workers (delete_container ports i db)
unfolding delete_container
delete_container-Removed ports i db =
    let (k, h) = worker_row i db in found-Removed ports i db.workers (Workers.get_by_id i db) k h
