-- ===== src/Accounts/Import.antt =====
-- account.go: the import of many accounts in one call, and the limiter of such calls. The map of the
-- limiter is a function from callers to the times of their imports.
pub mod Accounting
pub mod Budget
use jg_smm.Prelude.{
  ℕ, zero, suc, ◌+◌, ◌==◌, ltb, Bool, true, false, if◌then◌else◌, List, [], ◌∷◌, ◌++◌, keep, length,
  Option, none, some,
}
use jg_smm.Domain.Status.{Platform}
use jg_smm.Store.{Db, Err, Result, ok, err, validation, rate_limited}
use jg_smm.Accounts.{AccountInput, Parts, Created, validate, create_account}

abbrev pub max_import_rows : ℕ
max_import_rows = 100

abbrev pub import_rate_limit : ℕ
import_rate_limit = 10

-- `time.Minute`.
abbrev pub import_window : ℕ
import_window = 60_000_000_000

abbrev pub ImportLimiter : Type 0
ImportLimiter = ℕ → List ℕ

abbrev pub with_imports : ℕ → List ℕ → ImportLimiter → ImportLimiter
with_imports caller hits l j = if j == caller then hits else l j

-- `t.After(now.Add(-l.window))`, the window moved to the other side.
abbrev pub is_in_window : ℕ → ℕ → Bool
is_in_window now t = ltb now (t + import_window)

abbrev pub budgeted : ℕ → ℕ → List ℕ → ImportLimiter → Bool → Bool × ImportLimiter
budgeted caller now kept l true = (true, with_imports caller (kept ++ (now ∷ [])) l)
budgeted caller now kept l false = (false, with_imports caller kept l)

-- `Allow`: only a call that is let through is recorded.
unfoldable pub allow_import : ℕ → ℕ → ImportLimiter → Bool × ImportLimiter
allow_import caller now l =
    let kept = keep (is_in_window now) (l caller) in
    budgeted caller now kept l (ltb (length kept) import_rate_limit)

-- The reason of a refused row is the error it met.
pub record ImportError : Type 0 where
  pub row : ℕ
  pub reason : Err

pub record ImportResult : Type 0 where
  pub queued : ℕ
  pub invalid : List ImportError
  pub rate_limited : Bool

abbrev pub empty_import : ImportResult
empty_import = record { queued = 0; invalid = []; rate_limited = false }

abbrev pub refuse_row : ℕ → Err → ImportResult → ImportResult
refuse_row i e res = record res { invalid = res.invalid ++ (record { row = i; reason = e } ∷ []) }

abbrev pub queue_row : ImportResult → ImportResult
queue_row res = record res { queued = suc res.queued }

unfoldable pub after_row : ℕ → ImportResult → Result Created × Db → ImportResult × Db
after_row i res (ok c, db) = (queue_row res, db)
after_row i res (err e, db) = (refuse_row i e res, db)

unfoldable pub import_row :
    Parts → ℕ → AccountInput → Result Platform → ImportResult → Db → ImportResult × Db
unfolding after_row
import_row parts i input (err e) res db = (refuse_row i e res, db)
import_row parts i input (ok p) res db = after_row i res (create_account parts input db)

unfoldable pub import_each : Parts → ℕ → List AccountInput → ImportResult × Db → ImportResult × Db
unfolding import_row
import_each parts i [] x = x
import_each parts i (input ∷ rest) (res, db) =
    import_each parts (suc i) rest (import_row parts i input (validate input) res db)

-- The answer, the error beside it, and what the call leaves behind.
pub record Imported : Type 0 where
  pub result : ImportResult
  pub error : Option Err
  pub limiter : ImportLimiter
  pub after : Db

unfoldable pub import_allowed : Parts → List AccountInput → Db → Bool × ImportLimiter → Imported
unfolding import_each
import_allowed parts rows db (false, l) = record {
  result = record { queued = 0; invalid = []; rate_limited = true };
  error = some Err.rate_limited;
  limiter = l;
  after = db;
}
import_allowed parts rows db (true, l) =
    let (res, db') = import_each parts 0 rows (empty_import, db) in
    record { result = res; error = none; limiter = l; after = db' }

abbrev pub bad_size : ℕ → Bool
bad_size n = if n == 0 then true else ltb max_import_rows n

unfoldable pub import_sized : Parts → ℕ → List AccountInput → ImportLimiter → Db → Bool → Imported
unfolding import_allowed
import_sized parts caller rows l db true = record {
  result = empty_import;
  error = some validation;
  limiter = l;
  after = db;
}
import_sized parts caller rows l db false =
    import_allowed parts rows db (allow_import caller db.now l)

-- `Import`.
unfoldable pub import_accounts : Parts → ℕ → List AccountInput → ImportLimiter → Db → Imported
unfolding import_sized
import_accounts parts caller rows l db =
    import_sized parts caller rows l db (bad_size (length rows))
