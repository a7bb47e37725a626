-- ===== src/Packer/Reap.antt =====
-- packer.go, `ReapEmpty` and `Release`: which containers are removed.
use jg_smm.Prelude.{
  ℕ, zero, suc, ◌≡◌, refl, ◌⊎◌, inl, inr, true, none, some, arith, find, count, Bool-cases,
}
use jg_smm.Domain.Status.{is_auto}
use jg_smm.Domain.Entities.{Account, Worker}
use jg_smm.Store.{Db, Result, ok, err, not_found, bind_result}
use jg_smm.Store.Accounts.{has_worker_id, is_on, count_by_worker, unassign}
use jg_smm.Store.Workers
use jg_smm.Packer.{reap_counted, reap_found, reap_empty, release_from, release}

-- A container may be reaped when its row is AUTO and no account names it.
abbrev pub MayReap : ℕ → Db → Type 0
MayReap i db =
    (w : Worker) × (find (has_worker_id i) db.workers ≡ some w)
    × (is_auto w.source ≡ true)
    × (count (is_on i) db.accounts ≡ 0)

-- The tables that a removal writes are as they were.
pub record Kept (before after : Db) : Type 0 where
  pub same_workers : after.workers ≡ before.workers
  pub same_accounts : after.accounts ≡ before.accounts

counted :
    (i : ℕ) (before : Db) (x : Result ℕ × Db)
    → Kept before x.1
    → ((n : ℕ) → x.0 ≡ ok n → n ≡ count (is_on i) before.accounts)
    → Kept before (bind_result x (reap_counted i)).1 ⊎ (count (is_on i) before.accounts ≡ 0)
unfolding reap_counted
counted i before (err e, db) k c = inl k
counted i before (ok (suc n), db) k c = inl k
counted i before (ok zero, db) k c = inr (ground (arith, c 0))

count_by_worker_lem :
    (i : ℕ) (db : Db)
    → Kept db (count_by_worker i db).1
      × ((n : ℕ) → (count_by_worker i db).0 ≡ ok n → n ≡ count (is_on i) db.accounts)
unfolding count_by_worker
count_by_worker_lem i db = ground arith

get_by_id_lem :
    (i : ℕ) (db : Db)
    → Kept db (Workers.get_by_id i db).1
      × ((w : Worker)
          → (Workers.get_by_id i db).0 ≡ ok w
          → find (has_worker_id i) db.workers ≡ some w)
unfolding Workers.get_by_id
get_by_id_lem i db = ground arith

found :
    (i : ℕ) (before : Db) (x : Result Worker × Db)
    → Kept before x.1
    → ((w : Worker) → x.0 ≡ ok w → find (has_worker_id i) before.workers ≡ some w)
    → Kept before (reap_found i x).1 ⊎ MayReap i before
unfolding reap_found
found i before (err not_found, db) k f = inl k
found i before (err e, db) k f = inl k
found i before (ok w, db) k f = elim (Bool-cases (is_auto w.source)) [
  | inr e ↦ inl (rw (e, reap_found) k)
  | inl e ↦
      rw (e, reap_found)
        (elim (counts (count_by_worker_lem i db)) [
          | inl q ↦ inl q
          | inr q ↦ inr (w, f w refl, e, q)
        ])
]
  where
    counts :
        (Kept db (count_by_worker i db).1
          × ((n : ℕ) → (count_by_worker i db).0 ≡ ok n → n ≡ count (is_on i) db.accounts))
        → Kept before (bind_result (count_by_worker i db) (reap_counted i)).1
          ⊎ (count (is_on i) before.accounts ≡ 0)
    counts (q, c) =
        counted i before (count_by_worker i db) (ground (arith, k, q))
          (λ n o. rw (← k.same_accounts) (c n o))

-- Whatever statements fail, `ReapEmpty` leaves the workers and the accounts as they were, unless the
-- container's row is there, it is AUTO, and no account names it.
pub reap_empty_lem : (i : ℕ) (db : Db) → Kept db (reap_empty i db).1 ⊎ MayReap i db
unfolding reap_empty
reap_empty_lem i db = let (k, f) = get_by_id_lem i db in found i db (Workers.get_by_id i db) k f

release_from-none :
    (x : Result Account × Db) (before : Db)
    → x.1.workers ≡ before.workers
    → ((a : Account) → x.0 ≡ ok a → a.worker_id ≡ none)
    → (bind_result x (λ a. release_from a.worker_id)).1.workers ≡ before.workers
unfolding release_from
release_from-none (err e, db) before q h = q
release_from-none (ok a, db) before q h = rw (h a refl, release_from) q

pub unassign_lem :
    (i : ℕ) (db : Db)
    → ((unassign i db).1.workers ≡ db.workers)
      × ((a : Account) → (unassign i db).0 ≡ ok a → a.worker_id ≡ none)
unfolding unassign
unassign_lem i db = ground arith

-- `Release` never removes a container, not even an AUTO one whose last account it takes out: the
-- workers are as they were.
pub release-workers : (i : ℕ) (db : Db) → (release i db).1.workers ≡ db.workers
unfolding release
release-workers i db = let (q, h) = unassign_lem i db in release_from-none (unassign i db) db q h
