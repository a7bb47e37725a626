-- ===== src/Users/Emails.antt =====
-- user.go, Create: the row of a new user, and the addresses of a team.
use jg_smm.Prelude.{
  ℕ, ◌≤◌, ◌≡◌, ap, refl, ◌⊎◌, inl, inr, String, Bool, true, false, if◌then◌else◌, any, count, List,
  [], ◌∷◌, arith, Bool-cases, sym,
}
use std.Path.{subst}
use jg_smm.Prelude.Text.{codes}
use jg_smm.Domain.Role.{is_valid_role}
use jg_smm.Domain.Entities.{User}
use jg_smm.Store.{Db, Result, ok, err, is_ok, conflict, bind_result, query_with}
use jg_smm.Store.Workers.{same_text}
use jg_smm.Store.Texts.{same_text-≡}
use jg_smm.Store.Users
use jg_smm.Store.Users.{has_email, new_user, insert}
use jg_smm.Users.Creation.{
  UserInput, UserSummary, Texts, is_valid_input, to_view, shown, after_hash, create_user,
}

-- No two rows have one address.
abbrev pub UniqueEmails : List User → Type 0
UniqueEmails users = (email : String) → count (has_email email) users ≤ 1

abbrev has_codes : List ℕ → User → Bool
has_codes cs u = same_text (codes u.email) cs

count-unseen :
    (cs : List ℕ) (us : List User) → any (has_codes cs) us ≡ false → count (has_codes cs) us ≡ 0
count-unseen cs [] h = refl
count-unseen cs (u ∷ us) h = ground (arith, h, count-unseen cs us)

-- Under the address of a row that is new, the row stands alone.
add_seen :
    (u : User) (us : List User) (cs : List ℕ)
    → codes u.email ≡ cs
    → any (has_codes (codes u.email)) us ≡ false
    → count (has_codes cs) (u ∷ us) ≤ 1
add_seen u us cs e h =
    let h' = subst (λ t. any (has_codes t) us ≡ false) e h in
    let none_seen = count-unseen cs us h' in
    elim (Bool-cases (same_text (codes u.email) cs)) [
      | inl s ↦ ground (arith, s, none_seen)
      | inr s ↦ ground (arith, s, none_seen)
    ]

add-UniqueEmails :
    (u : User) (us : List User)
    → any (has_email u.email) us ≡ false
    → UniqueEmails us
    → UniqueEmails (u ∷ us)
add-UniqueEmails u us h unique email = elim (Bool-cases (same_text (codes u.email) (codes email))) [
  | inl e ↦
      omega (arith, add_seen u us (codes email) (same_text-≡ (codes u.email) (codes email) e) h)
  | inr e ↦ ground (arith, e, unique email)
]

abbrev pub first_fails : List Bool → Bool
first_fails [] = false
first_fails (b ∷ rest) = b

module _ (texts : Texts) where
  open texts use {trim, to_lower, lower, hash_password, new_id}

  -- What Create returns and leaves: a row for the input at the head of the users, or the users as
  -- they were.
  pub record IsEntered (input : UserInput) (before : List User) (v : UserSummary) (db : Db)
      : Type 0 where
    pub entered : User
    pub valid : is_valid_input texts input ≡ true
    pub rows : db.users ≡ entered ∷ before
    pub view : v ≡ to_view texts entered
    pub same_email : entered.email ≡ lower (to_lower (trim input.email))
    pub same_name : entered.name ≡ trim input.name
    pub same_role : entered.role ≡ input.role
    pub fresh : any (has_email entered.email) before ≡ false

  -- Why Create may refuse: the input, the hash, the address, or a statement that fails.
  abbrev pub Refused : UserInput → List Bool → List User → Type 0
  Refused input faults before =
      (is_valid_input texts input ≡ false)
      ⊎ ((is_ok (hash_password input.password) ≡ false)
          ⊎ ((any (has_email (lower (to_lower (trim input.email)))) before ≡ true)
              ⊎ (first_fails faults ≡ true)))

  abbrev pub Entered : UserInput → List Bool → List User → Result UserSummary × Db → Type 0
  Entered input faults before (ok v, db) = IsEntered input before v db
  Entered input faults before (err e, db) = (db.users ≡ before) × Refused input faults before

  abbrev new_row : UserInput → Db → User
  new_row input db =
      new_user (new_id db) db.now (lower (to_lower (trim input.email))) (trim input.name) input.role

  valid_role :
      (input : UserInput) → is_valid_input texts input ≡ true → is_valid_role input.role ≡ true
  unfolding is_valid_input
  valid_role input h = ground (arith, h)

  insert-Entered :
      (faults : List Bool) (input : UserInput) (db : Db) (taken : Bool)
      → is_valid_input texts input ≡ true
      → any (has_email (lower (to_lower (trim input.email)))) db.users ≡ taken
      → Entered input faults db.users (
          bind_result
            (if taken
              then (err conflict, db)
              else (ok (new_row input db), record db { users = new_row input db ∷ db.users }))
            (shown texts))
  insert-Entered faults input db true h e = (refl, inr (inr (inl e)))
  insert-Entered faults input db false h e = record {
    entered = new_row input db;
    valid = h;
    rows = refl;
    view = refl;
    same_email = refl;
    same_name = refl;
    same_role = refl;
    fresh = e;
  }

  query-Entered :
      (faults : List Bool) (input : UserInput) (db : Db)
      → is_valid_input texts input ≡ true
      → Entered input faults db.users (
          bind_result
            (query_with faults
              (insert lower new_id (to_lower (trim input.email)) (trim input.name) input.role)
              db)
            (shown texts))
  query-Entered [] input db h = rw (valid_role input h) (
      insert-Entered [] input db (any (has_email (lower (to_lower (trim input.email)))) db.users) h
        refl)
  query-Entered (true ∷ rest) input db h = (refl, inr (inr (inr refl)))
  query-Entered (false ∷ rest) input db h = rw (valid_role input h) (
      insert-Entered (false ∷ rest) input (record db { faults = rest })
        (any (has_email (lower (to_lower (trim input.email)))) db.users) h refl)

  hash-Entered :
      (input : UserInput) (hash : Result String) (db : Db)
      → hash_password input.password ≡ hash
      → is_valid_input texts input ≡ true
      → Entered input db.faults db.users (after_hash texts input hash db)
  unfolding Users.create
  hash-Entered input (err e) db q h = (refl, inr (inl (ap is_ok q)))
  hash-Entered input (ok p) db q h = query-Entered db.faults input db h

  -- Create either returns the view of the one row that it adds at the head of the users, for an input
  -- that passes the checks and under the trimmed address in small letters, which nobody had, with the trimmed name and the role of
  -- the input; or it
  -- leaves the users as they were, and then the input is invalid, the hash fails, the address is taken
  -- or the statement fails.
  pub create_user-Entered :
      (input : UserInput) (db : Db) → Entered input db.faults db.users (create_user texts input db)
  unfolding create_user
  create_user-Entered input db = elim (Bool-cases (is_valid_input texts input)) [
    | inl e ↦ rw e (hash-Entered input (hash_password input.password) db refl e)
    | inr e ↦ rw e (refl, inl e)
  ]

  Entered-UniqueEmails :
      (input : UserInput) (faults : List Bool) (before : List User) (x : Result UserSummary × Db)
      → Entered input faults before x
      → UniqueEmails before
      → UniqueEmails x.1.users
  Entered-UniqueEmails input faults before (ok v, db) c unique =
      subst UniqueEmails (sym c.rows) (add-UniqueEmails c.entered before c.fresh unique)
  Entered-UniqueEmails input faults before (err e, db) c unique =
      subst UniqueEmails (sym c.0) unique

  -- No two rows get one address, whichever statements fail.
  pub create_user-UniqueEmails :
      (input : UserInput) (db : Db)
      → UniqueEmails db.users
      → UniqueEmails (create_user texts input db).1.users
  create_user-UniqueEmails input db =
      Entered-UniqueEmails input db.faults db.users (create_user texts input db)
        (create_user-Entered input db)
