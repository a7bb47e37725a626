-- ===== src/Accounts/Creation.antt =====
-- account.go, `Create`: what is written when the answer is an error.
use jg_smm.Prelude.{
  ℕ, ◌≡◌, refl, ◌∙◌, true, false, List, [], ◌∷◌, Option, none, some, String, any, find, arith,
}
use jg_smm.Prelude.Text.{codes}
use jg_smm.Domain.Status.{Platform}
use jg_smm.Domain.Entities.{Account, Worker}
use jg_smm.Store.{Db, Result, ok, err, not_found, bind_result, is_ok, publish}
use jg_smm.Store.Accounts.{has_worker_id}
use jg_smm.Store.Accounts.Creation.{create, inserted, is_duplicate, is_blank_name, group_missing}
use jg_smm.Store.Workers
use jg_smm.Packer.{Config, Ports, pack, resolve_container}
use jg_smm.Accounts.{
  AccountInput, Parts, validate, new_account, sealed, stored, create_valid, show_created,
  after_pack, place, create_account,
}

after_pack-ok : (a : Account) (x : Result (Account × Worker) × Db) → is_ok (after_pack a x).0 ≡ true
unfolding after_pack show_created publish
after_pack-ok a (ok (b, w), db) = refl
after_pack-ok a (err e, db) = refl

-- Without a pick the placement never answers with an error.
place-ok :
    (packer : Option (Ports × Config)) (a : Account) (db : Db)
    → is_ok (place packer none a db).0 ≡ true
unfolding place show_created publish
place-ok none a db = refl
place-ok (some (ports, cfg)) a db = after_pack-ok a (pack ports cfg a.id a.platform db)

-- An error means that no account is written.
abbrev pub Untouched : {A : Type 0} → List Account → Result A × Db → Type 0
Untouched before x = is_ok x.0 ≡ false → x.1.accounts ≡ before

create-Untouched :
    (new_id : Db → ℕ) (new : Account) (db : Db) → Untouched db.accounts (create new_id new db)
unfolding create
create-Untouched new_id new db h = ground (arith, h)

sealed-accounts :
    (seal : Option (String → Result (List ℕ))) (password : String) (db : Db)
    → (sealed seal password db).1.accounts ≡ db.accounts
unfolding sealed
sealed-accounts none password db = refl
sealed-accounts (some seal) password db = refl

placed-Untouched :
    (before : List Account) (packer : Option (Ports × Config)) (x : Result Account × Db)
    → Untouched before x
    → Untouched before (bind_result x (place packer none))
placed-Untouched before packer (ok a, db) u h = ground (arith, place-ok packer a db, h)
placed-Untouched before packer (err e, db) u h = u h

stored-Untouched :
    (parts : Parts) (input : AccountInput) (p : Platform) (db : Db)
    → Untouched db.accounts (stored parts input p db)
unfolding stored
stored-Untouched parts input p db = after_seal (sealed parts.seal input.password db) sealing
  where
    sealing : (sealed parts.seal input.password db).1.accounts ≡ db.accounts
    sealing = sealed-accounts parts.seal input.password db

    after_seal :
        (x : Result (List ℕ) × Db)
        → x.1.accounts ≡ db.accounts
        → Untouched db.accounts (bind_result x (λ enc. create parts.new_id (new_account input p)))
    after_seal (err e, db') s h = s
    after_seal (ok enc, db') s h = create-Untouched parts.new_id (new_account input p) db' h ∙ s

checked-Untouched :
    (parts : Parts) (input : AccountInput) (v : Result Platform) (db : Db)
    → input.worker_id ≡ none
    → Untouched db.accounts (bind_result (v, db) (create_valid parts input))
unfolding create_valid
checked-Untouched parts input (err e) db p h = refl
checked-Untouched parts input (ok platform) db p h =
    let unpicked : Untouched db.accounts
        (bind_result (stored parts input platform db) (place parts.packer input.worker_id)) =
      rw p (
        placed-Untouched db.accounts parts.packer (stored parts input platform db)
          (stored-Untouched parts input platform db)) in
    unpicked h

-- An error of `Create` leaves the accounts as they were, when the input picks no container: whether it
-- is the input, the sealer, or a failing or conflicting insertion.
pub create_account_unpicked :
    (parts : Parts) (input : AccountInput) (db : Db)
    → input.worker_id ≡ none
    → is_ok (create_account parts input db).0 ≡ false
    → (create_account parts input db).1.accounts ≡ db.accounts
unfolding create_account
create_account_unpicked parts input db p = checked-Untouched parts input (validate input) db p

create_ok :
    (new_id : Db → ℕ) (new : Account) (db : Db)
    → db.faults ≡ []
    → new.worker_id ≡ none
    → is_blank_name (codes new.username) ≡ false
    → group_missing new.proxy_group_id db.proxy_groups ≡ false
    → any (is_duplicate new) db.accounts ≡ false
    → create new_id new db ≡ (
      ok (inserted (new_id db) db.now new),
      record db { accounts = inserted (new_id db) db.now new ∷ db.accounts },
    )
unfolding create
create_ok new_id new db q w b g h = ground arith

-- The row that is there after a bad pick: the account's, with no container.
abbrev pub left_row : Parts → AccountInput → Platform → Db → Account
left_row parts input p db = inserted (parts.new_id db) db.now (new_account input p)

resolve_missing :
    (ports : Ports) (cfg : Config) (w : ℕ) (p : Platform) (db : Db)
    → db.faults ≡ []
    → find (has_worker_id w) db.workers ≡ none
    → resolve_container ports cfg w p db ≡ (err not_found, db)
unfolding resolve_container Workers.get_by_id
resolve_missing ports cfg w p db q h = ground arith

abbrev pub wired : (Db → ℕ) → (String → Result (List ℕ)) → Ports → Config → Parts
wired new_id seal ports cfg = record {
  seal = some seal;
  packer = some (ports, cfg);
  new_id = new_id;
}

stored_ok :
    (parts : Parts) (seal : String → Result (List ℕ)) (enc : List ℕ) (input : AccountInput)
    (p : Platform) (db : Db)
    → parts.seal ≡ some seal
    → seal input.password ≡ ok enc
    → db.faults ≡ []
    → is_blank_name (codes input.username) ≡ false
    → group_missing input.proxy_group_id db.proxy_groups ≡ false
    → any (is_duplicate (new_account input p)) db.accounts ≡ false
    → stored parts input p db ≡ (
      ok (left_row parts input p db),
      record db { accounts = left_row parts input p db ∷ db.accounts },
    )
unfolding stored sealed
stored_ok parts seal enc input p db q s f b g fresh =
    rw (q, s) (create_ok parts.new_id (new_account input p) db f refl b g fresh)

place_missing :
    (ports : Ports) (cfg : Config) (w : ℕ) (a : Account) (db : Db)
    → db.faults ≡ []
    → find (has_worker_id w) db.workers ≡ none
    → place (some (ports, cfg)) (some w) a db ≡ (err not_found, db)
unfolding place
place_missing ports cfg w a db q m = rw (resolve_missing ports cfg w a.platform db q m) refl

-- When no statement fails and a valid account that is not there yet, with a name that is not blank
-- and no proxy group or one that is there, names a container that does not
-- exist, `Create` answers with an error, and yet the account's row has been written.
pub create_account_bad_pick :
    (new_id : Db → ℕ) (seal : String → Result (List ℕ)) (enc : List ℕ) (ports : Ports)
    (cfg : Config) (input : AccountInput) (p : Platform) (w : ℕ) (db : Db)
    → db.faults ≡ []
    → validate input ≡ ok p
    → seal input.password ≡ ok enc
    → input.worker_id ≡ some w
    → find (has_worker_id w) db.workers ≡ none
    → is_blank_name (codes input.username) ≡ false
    → group_missing input.proxy_group_id db.proxy_groups ≡ false
    → any (is_duplicate (new_account input p)) db.accounts ≡ false
    → create_account (wired new_id seal ports cfg) input db ≡ (
      err not_found,
      record db { accounts = left_row (wired new_id seal ports cfg) input p db ∷ db.accounts },
    )
unfolding create_account create_valid
create_account_bad_pick new_id seal enc ports cfg input p w db q v s pick missing b g fresh =
    let parts = wired new_id seal ports cfg in
    rw (v, pick, stored_ok parts seal enc input p db refl s q b g fresh)
      (place_missing ports cfg w (left_row parts input p db)
        (record db { accounts = left_row parts input p db ∷ db.accounts }) q missing)
