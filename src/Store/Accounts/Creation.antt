-- ===== src/Store/Accounts/Creation.antt =====
-- apps/api/internal/repository/account.go, Create and List, with their queries. The rows of
-- `accounts` stand in the order of the listing, newest first. The one caller of Create names the
-- login state, and the columns that the statement leaves out take their defaults.
use jg_smm.Prelude.{
  ℕ, Bool, true, false, ◌&&◌, ◌||◌, if◌then◌else◌, not, ◌==◌, List, [], ◌∷◌, Option, none, some,
  any, keep, take, String,
}
use jg_smm.Prelude.Int.{pos}
use jg_smm.Prelude.Text.{codes}
use jg_smm.Domain.Status.{Platform}
use jg_smm.Domain.Entities.{Account}
use jg_smm.Store.{Db, M, ok, err, conflict, driver, query}
use jg_smm.Store.Accounts.{same_platform, is_on, worker_missing}
use jg_smm.Store.Workers.{same_text, page_limit}

-- The row that holds the pair of a platform and a user name.
abbrev pub same_login : Platform → String → Account → Bool
same_login p name a = same_platform p a && same_text (codes a.username) (codes name)

abbrev pub shares_slot : Option ℕ → Platform → Account → Bool
shares_slot none p a = false
shares_slot (some w) p a = is_on w a && same_platform p a

abbrev pub is_duplicate : Account → Account → Bool
is_duplicate new a =
    same_login new.platform new.username a || shares_slot new.worker_id new.platform a

abbrev pub inserted : ℕ → ℕ → Account → Account
inserted i now new = record new {
  id = i;
  handle = none;
  last_verified = none;
  health_score = pos 100;
  last_used_at = none;
  last_checked = none;
  last_error = none;
  created_at = now;
}

-- `length(btrim(username)) > 0` refuses a name of spaces only.
abbrev pub is_blank_name : List ℕ → Bool
is_blank_name [] = true
is_blank_name (c ∷ s) = c == 32 && is_blank_name s

abbrev pub is_group : ℕ → ℕ → Bool
is_group g h = h == g

abbrev pub group_missing : Option ℕ → List ℕ → Bool
group_missing none groups = false
group_missing (some g) groups = not (any (is_group g) groups)

-- The check of the row comes first, then the unique pairs, then the foreign keys.
unfoldable pub create : (Db → ℕ) → Account → M Account
create new_id new = query λ db.
    if is_blank_name (codes new.username)
    then (err driver, db)
    else if any (is_duplicate new) db.accounts
    then (err conflict, db)
    else if worker_missing new.worker_id db.workers
        || group_missing new.proxy_group_id db.proxy_groups
    then (err driver, db)
    else (
      ok (inserted (new_id db) db.now new),
      record db { accounts = inserted (new_id db) db.now new ∷ db.accounts },
    )

-- `List` with its filters, which are applied after the page is cut.
unfoldable pub list : (Account → Bool) → ℕ → M (List Account)
unfolding page_limit
list filter limit = query λ db. (ok (keep filter (take (page_limit limit) db.accounts)), db)

abbrev pub every_account : Account → Bool
every_account a = true
