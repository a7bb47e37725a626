-- ===== src/Store/Accounts/Laws.antt =====
-- What the account statements return and write when no call fails.
use jg_smm.Prelude.{ℕ, ◌≡◌, ◌≢◌, false, List, [], Option, some, arith, find}
use jg_smm.Prelude.Table.{find-update_where, find-update_other}
use jg_smm.Domain.Entities.{Account}
use jg_smm.Store.{Db, ok}
use jg_smm.Store.Accounts.{
  has_id, get_by_id, update, overwrite, write_account, out_of_range, slot_taken, worker_missing,
}

-- The row of an account, if it is there.
abbrev pub account_of : ℕ → Db → Option Account
account_of i db = find (has_id i) db.accounts

-- The slot of the row is its own, and its container is there: what the schema asks of a row.
pub record IsPlaced (a : Account) (db : Db) : Type 0 where
  pub own_slot : slot_taken a.id a.worker_id a.platform db.accounts ≡ false
  pub on_worker : worker_missing a.worker_id db.workers ≡ false

pub get_by_id_ok :
    (i : ℕ) (a : Account) (db : Db)
    → db.faults ≡ []
    → account_of i db ≡ some a
    → get_by_id i db ≡ (ok a, db)
unfolding get_by_id
get_by_id_ok i a db q h = ground arith

pub update_ok :
    (b a : Account) (db : Db)
    → db.faults ≡ []
    → account_of b.id db ≡ some a
    → out_of_range b.health_score ≡ false
    → slot_taken b.id b.worker_id a.platform db.accounts ≡ false
    → worker_missing b.worker_id db.workers ≡ false
    → update b db ≡ (ok (overwrite b a), record db { accounts = write_account b db.accounts })
unfolding update
update_ok b a db q h o s w = ground arith

pub find-write_self :
    (b a : Account) (accounts : List Account)
    → find (has_id b.id) accounts ≡ some a
    → find (has_id b.id) (write_account b accounts) ≡ some (overwrite b a)
find-write_self b a accounts h =
    ground (arith, find-update_where (has_id b.id) (overwrite b) accounts (λ x q. q))

pub find-write_ne :
    (b : Account) (k : ℕ) (accounts : List Account)
    → b.id ≢ k
    → find (has_id k) (write_account b accounts) ≡ find (has_id k) accounts
find-write_ne b k accounts h =
    find-update_other (has_id b.id) (has_id k) (overwrite b) accounts (λ x q. ground arith)
      (λ x q. ground arith)
