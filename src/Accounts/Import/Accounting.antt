-- ===== src/Accounts/Import/Accounting.antt =====
-- account.go, `Import`: what the answer says of the rows.
use jg_smm.Prelude.{
  ℕ, suc, ◌+◌, ◌≤◌, ◌<◌, ◌≡◌, refl, sym, ap, ◌∙◌, ◌⊎◌, Bool, true, false, List, [], ◌∷◌, ◌++◌,
  length, none, some, arith, inl, inr, Bool-cases,
}
use jg_smm.Domain.Status.{Platform}
use jg_smm.Store.{Db, Err, Result, ok, err, validation, bind_result}
use jg_smm.Accounts.{AccountInput, Parts, Created, validate, create_valid, create_account}
use jg_smm.Accounts.Import.{
  ImportError, ImportResult, ImportLimiter, Imported, after_row, import_row, import_each,
  import_allowed, import_sized, import_accounts, allow_import, bad_size,
}

-- The answers of `Create` for the rows, one after the other, and the database after them.
pub outcomes : Parts → List AccountInput → Db → List (Result Created) × Db
outcomes parts [] db = ([], db)
outcomes parts (input ∷ rest) db =
    let x = create_account parts input db in let y = outcomes parts rest x.1 in (x.0 ∷ y.0, y.1)

-- How many of the answers carry an account.
abbrev pub accepted : List (Result Created) → ℕ
accepted [] = 0
accepted (ok c ∷ rs) = suc (accepted rs)
accepted (err e ∷ rs) = accepted rs

-- The errors among the answers, each with the position of its row.
abbrev pub refused_from : ℕ → List (Result Created) → List ImportError
refused_from i [] = []
refused_from i (ok c ∷ rs) = refused_from (suc i) rs
refused_from i (err e ∷ rs) = record { row = i; reason = e } ∷ refused_from (suc i) rs

abbrev extended : ℕ → ImportResult → List (Result Created) → ImportResult
extended i res rs = record res {
  queued = res.queued + accepted rs;
  invalid = res.invalid ++ refused_from i rs;
}

append_one :
    (es : List ImportError) (e : ImportError) (fs : List ImportError)
    → (es ++ (e ∷ [])) ++ fs ≡ es ++ (e ∷ fs)
append_one [] e fs = refl
append_one (d ∷ es) e fs = ap (◌∷◌ d) (append_one es e fs)

append_none : (es : List ImportError) → es ++ [] ≡ es
append_none [] = refl
append_none (e ∷ es) = ap (◌∷◌ e) (append_none es)

with_counts : ImportResult → ℕ → List ImportError → ImportResult
with_counts res n es = record res { queued = n; invalid = es }

extended-none : (i : ℕ) (res : ImportResult) → extended i res [] ≡ res
unfolding with_counts
extended-none i res =
    ap (λ (n : ℕ). with_counts res n (res.invalid ++ [])) (plus_zero res.queued)
    ∙ ap (with_counts res res.queued) (append_none res.invalid)
  where
    plus_zero : (n : ℕ) → n + 0 ≡ n
    plus_zero n = omega arith

extended-more :
    (i : ℕ) (res : ImportResult) (x : Result Created × Db) (rs : List (Result Created))
    → extended (suc i) (after_row i res x).0 rs ≡ extended i res (x.0 ∷ rs)
unfolding after_row with_counts
extended-more i res (ok c, db) rs =
    ap (λ (n : ℕ). with_counts res n (res.invalid ++ refused_from (suc i) rs))
      (shift res.queued (accepted rs))
  where
    shift : (n m : ℕ) → suc n + m ≡ n + suc m
    shift n m = omega arith
extended-more i res (err e, db) rs =
    ap (with_counts res (res.queued + accepted rs))
      (append_one res.invalid (record { row = i; reason = e }) (refused_from (suc i) rs))

after_row-db : (i : ℕ) (res : ImportResult) (x : Result Created × Db) → (after_row i res x).1 ≡ x.1
unfolding after_row
after_row-db i res (ok c, db) = refl
after_row-db i res (err e, db) = refl

import_row_from :
    (parts : Parts) (i : ℕ) (input : AccountInput) (v : Result Platform) (res : ImportResult)
    (db : Db)
    → validate input ≡ v
    → import_row parts i input v res db ≡ after_row i res (create_account parts input db)
unfolding import_row after_row create_account
import_row_from parts i input (err e) res db q =
    sym (ap (λ v. after_row i res (bind_result (v, db) (create_valid parts input))) q)
import_row_from parts i input (ok p) res db q = refl

-- The test before `Create` is its own first test.
import_row_lem :
    (parts : Parts) (i : ℕ) (input : AccountInput) (res : ImportResult) (db : Db)
    → import_row parts i input (validate input) res db
      ≡ after_row i res (create_account parts input db)
import_row_lem parts i input res db = import_row_from parts i input (validate input) res db refl

import_each_lem :
    (parts : Parts) (i : ℕ) (rows : List AccountInput) (res : ImportResult) (db : Db)
    → import_each parts i rows (res, db)
      ≡ (extended i res (outcomes parts rows db).0, (outcomes parts rows db).1)
unfolding import_each outcomes
import_each_lem parts i [] res db = ap (λ r. (r, db)) (sym (extended-none i res))
import_each_lem parts i (input ∷ rest) res db =
    let x = create_account parts input db in
    let y = after_row i res x in
    ap (import_each parts (suc i) rest) (import_row_lem parts i input res db)
    ∙ (import_each_lem parts (suc i) rest y.0 y.1
        ∙ (ap (λ d. (extended (suc i) y.0 (outcomes parts rest d).0, (outcomes parts rest d).1))
              (after_row-db i res x)
            ∙ ap (λ r. (r, (outcomes parts rest x.1).1))
                (extended-more i res x (outcomes parts rest x.1).0)))

-- What an import answers: an error, and then nothing is queued and the database is as it was, or
-- the outcome of `Create` for each of its rows.
pub data Verdict (parts : Parts) (caller : ℕ) (rows : List AccountInput) (l : ImportLimiter)
    (before : Db) (x : Imported) : Type 0 where
  refused :
      (e : Err)
      → ((e ≡ validation) × ((length rows ≡ 0) ⊎ (100 < length rows)))
        ⊎ ((e ≡ Err.rate_limited) × ((allow_import caller before.now l).0 ≡ false))
      → x.error ≡ some e
      → x.result.queued ≡ 0
      → x.result.invalid ≡ []
      → x.after ≡ before
      → Verdict parts caller rows l before x
  taken :
      (1 ≤ length rows) × (length rows ≤ 100)
      → (allow_import caller before.now l).0 ≡ true
      → x.error ≡ none
      → x.result.queued ≡ accepted (outcomes parts rows before).0
      → x.result.invalid ≡ refused_from 0 (outcomes parts rows before).0
      → x.after ≡ (outcomes parts rows before).1
      → Verdict parts caller rows l before x

allowed-Verdict :
    (parts : Parts) (caller : ℕ) (rows : List AccountInput) (l : ImportLimiter) (db : Db)
    (x : Bool × ImportLimiter)
    → allow_import caller db.now l ≡ x
    → (1 ≤ length rows) × (length rows ≤ 100)
    → Verdict parts caller rows l db (import_allowed parts rows db x)
unfolding import_allowed
allowed-Verdict parts caller rows l db (false, m) q h =
    refused Err.rate_limited (inr (refl, ap (λ (y : Bool × ImportLimiter). y.0) q)) refl refl refl
      refl
allowed-Verdict parts caller rows l db (true, m) q h =
    let run =
      import_each_lem parts 0 rows (record { queued = 0; invalid = []; rate_limited = false }) db in
    taken h (ap (λ (y : Bool × ImportLimiter). y.0) q) refl
      (ap (λ (y : ImportResult × Db). y.0.queued) run ∙ zero_plus _)
      (ap (λ (y : ImportResult × Db). y.0.invalid) run) (ap (λ (y : ImportResult × Db). y.1) run)
  where
    zero_plus : (n : ℕ) → 0 + n ≡ n
    zero_plus n = omega arith

-- An import is refused with an error, and then nothing is queued and the database is as it was: with a
-- validation error if it carries no row or more than 100, or as too frequent if the limiter says so.
-- Or it is the calls of `Create` for its rows, one after the other: as many are queued as succeed, the
-- invalid rows are exactly those that fail, each with its position and its error, in order, and the
-- database is what the calls leave.
pub import_accounts-Verdict :
    (parts : Parts) (caller : ℕ) (rows : List AccountInput) (l : ImportLimiter) (db : Db)
    → Verdict parts caller rows l db (import_accounts parts caller rows l db)
unfolding import_accounts import_sized
import_accounts-Verdict parts caller rows l db = elim (Bool-cases (bad_size (length rows))) [
  | inl e ↦
      rw (e, import_sized)
        (refused validation (inl (refl, too_many (length rows) e)) refl refl refl refl)
  | inr e ↦
      rw (e, import_sized)
        (allowed-Verdict parts caller rows l db (allow_import caller db.now l) refl
          (ground (arith, e)))
]
  where
    too_many : (n : ℕ) → bad_size n ≡ true → (n ≡ 0) ⊎ (100 < n)
    too_many n h = ground (arith, h)
