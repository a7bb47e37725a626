-- ===== src/Accounts/Auth/Inputs.antt =====
-- account.go, `SubmitInput`: to which container a code goes.
use jg_smm.Prelude.{
  ℕ, String, ◌≡◌, refl, ◌⊎◌, inl, inr, Bool, true, false, [], ◌∷◌, ◌++◌, Option, none, some, find,
  arith,
}
use jg_smm.Domain.Entities.{Account}
use jg_smm.Store.{Db, Order, auth_input, Result, ok, err, is_ok, bind_result, publish_control, pure}
use jg_smm.Store.Accounts.{has_id, get_by_id}
use jg_smm.Accounts.{AccountSummary, to_account_view}
use jg_smm.Accounts.Auth.{awaits_input, input_if, input_on, submit_input}

-- How a submission can end: an error, and no message is out; or one message is, with the code, to the
-- container that the account's row names, and the row's login is one that awaits input.
pub data Submitted (i : ℕ) (value : String) (before : Db) (x : Result AccountSummary × Db)
    : Type 0 where
  unsent : is_ok x.0 ≡ false → x.1.orders ≡ before.orders → Submitted i value before x
  sent :
      (a : Account) (w : ℕ)
      → find (has_id i) before.accounts ≡ some a
      → a.worker_id ≡ some w
      → awaits_input a.auth_status ≡ true
      → x.0 ≡ ok (to_account_view a)
      → x.1.orders ≡ before.orders ++ ((w, auth_input i a.platform value) ∷ [])
      → Submitted i value before x

publish_control-orders :
    (w : ℕ) (order : Order) (db : Db)
    → ((is_ok (publish_control w order db).0 ≡ false)
        × ((publish_control w order db).1.orders ≡ db.orders))
      ⊎ ((is_ok (publish_control w order db).0 ≡ true)
          × ((publish_control w order db).1.orders ≡ db.orders ++ ((w, order) ∷ [])))
unfolding publish_control
publish_control-orders w order db = ground arith

published-Submitted :
    (i : ℕ) (value : String) (before : Db) (a : Account) (w : ℕ) (x : Result (Unit {0}) × Db)
    → find (has_id i) before.accounts ≡ some a
    → a.worker_id ≡ some w
    → awaits_input a.auth_status ≡ true
    → ((is_ok x.0 ≡ false) × (x.1.orders ≡ before.orders))
      ⊎ ((is_ok x.0 ≡ true)
          × (x.1.orders ≡ before.orders ++ ((w, auth_input i a.platform value) ∷ [])))
    → Submitted i value before (bind_result x (λ u. pure (to_account_view a)))
published-Submitted i value before a w (ok u, db) f p s (inl (q, o)) = ground (arith, q)
published-Submitted i value before a w (ok u, db) f p s (inr (q, o)) = sent a w f p s refl o
published-Submitted i value before a w (err e, db) f p s (inl (q, o)) = unsent refl o
published-Submitted i value before a w (err e, db) f p s (inr (q, o)) = ground (arith, q)

input_if-Submitted :
    (awaits : Bool) (w i : ℕ) (a : Account) (value : String) (before db : Db)
    → find (has_id i) before.accounts ≡ some a
    → a.worker_id ≡ some w
    → awaits_input a.auth_status ≡ awaits
    → db.orders ≡ before.orders
    → Submitted i value before (input_if awaits w i a value db)
unfolding input_if
input_if-Submitted false w i a value before db f p s o = unsent refl o
input_if-Submitted true w i a value before db f p s o =
    published-Submitted i value before a w (publish_control w (auth_input i a.platform value) db) f
      p s (rw (← o) (publish_control-orders w (auth_input i a.platform value) db))

input_on-Submitted :
    (worker : Option ℕ) (i : ℕ) (a : Account) (value : String) (before db : Db)
    → find (has_id i) before.accounts ≡ some a
    → a.worker_id ≡ worker
    → db.orders ≡ before.orders
    → Submitted i value before (input_on worker i a value db)
unfolding input_on
input_on-Submitted none i a value before db f p o = unsent refl o
input_on-Submitted (some w) i a value before db f p o =
    input_if-Submitted (awaits_input a.auth_status) w i a value before db f p refl o

account_row :
    (i : ℕ) (db : Db)
    → ((get_by_id i db).1.orders ≡ db.orders)
      × ((a : Account) → (get_by_id i db).0 ≡ ok a → find (has_id i) db.accounts ≡ some a)
unfolding get_by_id
account_row i db = ground arith

found-Submitted :
    (i : ℕ) (value : String) (before : Db) (x : Result Account × Db)
    → x.1.orders ≡ before.orders
    → ((a : Account) → x.0 ≡ ok a → find (has_id i) before.accounts ≡ some a)
    → Submitted i value before (bind_result x (λ a. input_on a.worker_id i a value))
found-Submitted i value before (err e, db) o h = unsent refl o
found-Submitted i value before (ok a, db) o h =
    input_on-Submitted a.worker_id i a value before db (h a refl) refl o

-- `SubmitInput` ends with an error and no message is out, or it hands out exactly one message: the code,
-- for this account and its platform, to the container that the account's row names, and only while
-- the login of the account is AUTHENTICATING or NEEDS_INPUT.
pub submit_input-Submitted :
    (wired : Bool) (i : ℕ) (value : String) (db : Db)
    → Submitted i value db (submit_input wired i value db)
unfolding submit_input
submit_input-Submitted false i value db = unsent refl refl
submit_input-Submitted true i value db =
    let (o, h) = account_row i db in found-Submitted i value db (get_by_id i db) o h
