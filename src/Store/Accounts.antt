-- ===== src/Store/Accounts.antt =====
-- apps/api/internal/repository/account.go with its queries (apps/api/db/queries/account.sql) and
-- the constraints UNIQUE (worker_id, platform), UNIQUE (platform, username), the range of
-- health_score and the foreign key of worker_id (apps/api/db/migrations/000003_accounts.up.sql).
pub mod Laws
pub mod Creation
use jg_smm.Prelude.{
  ℕ, zero, suc, ◌+◌, ◌≡◌, Bool, true, false, ◌&&◌, ◌||◌, not, ◌==◌, if◌then◌else◌, List, [], ◌∷◌,
  ◌++◌, Option, none, some, find, keep, any, count,
}
use jg_smm.Prelude.Int.{ℤ, pos, ltb_ℤ}
use jg_smm.Prelude.Table.{update_where}
use jg_smm.Domain.Status.{Platform, platform_number}
use jg_smm.Domain.Entities.{Account, Worker}
use jg_smm.Store.{Db, M, Result, ok, err, not_found, conflict, driver, query}

abbrev pub has_id : ℕ → Account → Bool
has_id i a = a.id == i

abbrev pub same_platform : Platform → Account → Bool
same_platform p a = platform_number a.platform == platform_number p

abbrev pub is_some_id : ℕ → Option ℕ → Bool
is_some_id w none = false
is_some_id w (some v) = v == w

abbrev pub is_on : ℕ → Account → Bool
is_on w a = is_some_id w a.worker_id

-- A row other than `i` that holds the slot of this platform in this container.
abbrev pub takes_slot : ℕ → ℕ → Platform → Account → Bool
takes_slot i w p a = not (a.id == i) && (is_on w a && same_platform p a)

abbrev pub slot_taken : ℕ → Option ℕ → Platform → List Account → Bool
slot_taken i none p accounts = false
slot_taken i (some w) p accounts = any (takes_slot i w p) accounts

abbrev pub has_worker_id : ℕ → Worker → Bool
has_worker_id w v = v.id == w

abbrev pub worker_missing : Option ℕ → List Worker → Bool
worker_missing none workers = false
worker_missing (some w) workers = not (any (has_worker_id w) workers)

abbrev pub out_of_range : ℤ → Bool
out_of_range score = ltb_ℤ score (pos 0) || ltb_ℤ (pos 100) score

unfoldable pub get_by_id : ℕ → M Account
get_by_id i =
    query
      λ db. elim (find (has_id i) db.accounts) [ none ↦ (err not_found, db) | some a ↦ (ok a, db) ]

-- `UpdateAccount` sets the lifecycle and auth columns from the value that the caller holds, and
-- leaves platform, username and created_at.
abbrev pub overwrite : Account → Account → Account
overwrite new old = record new {
  id = old.id;
  platform = old.platform;
  username = old.username;
  created_at = old.created_at;
}

abbrev pub write_account : Account → List Account → List Account
write_account a accounts = update_where (has_id a.id) (overwrite a) accounts

unfoldable pub update : Account → M Account
unfolding update_where
update a = query λ db. elim (find (has_id a.id) db.accounts) [
  | none ↦ (err not_found, db)
  | some old ↦
      if out_of_range a.health_score
        || slot_taken a.id a.worker_id old.platform db.accounts
        || worker_missing a.worker_id db.workers
      then (err driver, db)
      else (ok (overwrite a old), record db { accounts = write_account a db.accounts })
]

abbrev pub or_now : Option ℕ → ℕ → Option ℕ
or_now none now = some now
or_now (some t) now = some t

abbrev pub assigned : ℕ → ℕ → Account → Account
assigned w now a = record a { worker_id = some w; last_used_at = or_now a.last_used_at now }

-- The unique constraint is checked before the foreign key.
unfoldable pub assign : ℕ → ℕ → M Account
unfolding update_where
assign i w = query λ db. elim (find (has_id i) db.accounts) [
  | none ↦ (err not_found, db)
  | some a ↦
      if slot_taken i (some w) a.platform db.accounts
      then (err conflict, db)
      else if worker_missing (some w) db.workers
      then (err driver, db)
      else (
        ok (assigned w db.now a),
        record db { accounts = update_where (has_id i) (assigned w db.now) db.accounts },
      )
]

abbrev pub unassigned : Account → Account
unassigned a = record a { worker_id = none }

-- `UPDATE account SET worker_id = NULL ... RETURNING`: the row comes back without its container.
unfoldable pub unassign : ℕ → M Account
unfolding update_where
unassign i = query λ db. elim (find (has_id i) db.accounts) [
  | none ↦ (err not_found, db)
  | some a ↦
      (ok (unassigned a), record db { accounts = update_where (has_id i) unassigned db.accounts })
]

abbrev pub lacks_id : ℕ → Account → Bool
lacks_id i a = not (a.id == i)

unfoldable pub delete : ℕ → M (Unit {0})
delete i = query λ db. (ok tt, record db { accounts = keep (lacks_id i) db.accounts })

unfoldable pub list_by_worker : ℕ → M (List Account)
list_by_worker w = query λ db. (ok (keep (is_on w) db.accounts), db)

unfoldable pub count_by_worker : ℕ → M ℕ
count_by_worker w = query λ db. (ok (count (is_on w) db.accounts), db)
