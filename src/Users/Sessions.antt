-- ===== src/Users/Sessions.antt =====
-- user.go, `Update`: the sessions of a user whose role changes.
use jg_smm.Prelude.{
  ℕ, ◌≡◌, refl, ◌∙◌, Bool, true, false, ◌&&◌, List, Option, String, arith, Bool-cases, inl, inr,
}
use jg_smm.Domain.Role.{Role}
use jg_smm.Domain.Entities.{User, AuthSession}
use jg_smm.Store.{Db, M, Result, ok, err, bind_result, handle_result}
use jg_smm.Store.Users
use jg_smm.Store.Users.{count_owners_except, revoke_all, role_changed}
use jg_smm.Users.{
  is_empty, is_absent, is_unknown, counts_none, is_last_owner, revoke_if, update_found,
  update_guarded, update_user, demotes,
}

bind-sessions :
    {A B : Type 0} (before : List AuthSession) (x : Result A × Db) (f : A → M B)
    → x.1.sessions ≡ before
    → ((a : A) (db : Db) → db.sessions ≡ before → (f a db).1.sessions ≡ before)
    → (bind_result x f).1.sessions ≡ before
bind-sessions before (ok a, db) f e h = h a db e
bind-sessions before (err q, db) f e h = e

handle-sessions :
    {A B : Type 0} (before : List AuthSession) (x : Result A × Db) (g : Result A → Result B)
    → x.1.sessions ≡ before
    → (handle_result x (λ r db. (g r, db))).1.sessions ≡ before
handle-sessions before (r, db) g e = e

revoke_all-sessions : (i : ℕ) (db : Db) → (revoke_all i role_changed db).1.sessions ≡ db.sessions
unfolding revoke_all
revoke_all-sessions i db = ground arith

count_owners_except-sessions :
    (i : ℕ) (db : Db) → (count_owners_except i db).1.sessions ≡ db.sessions
unfolding count_owners_except
count_owners_except-sessions i db = ground arith

update-sessions :
    (i : ℕ) (name : String) (role : Role) (db : Db)
    → (Users.update i name role db).1.sessions ≡ db.sessions
unfolding Users.update
update-sessions i name role db = ground arith

get_by_id-sessions : (i : ℕ) (db : Db) → (Users.get_by_id i db).1.sessions ≡ db.sessions
unfolding Users.get_by_id
get_by_id-sessions i db = ground arith

is_last_owner-sessions :
    (i : ℕ) (b : Bool) (db : Db) → (is_last_owner i b db).1.sessions ≡ db.sessions
unfolding is_last_owner
is_last_owner-sessions i false db = refl
is_last_owner-sessions i true db =
    handle-sessions db.sessions (count_owners_except i db) (λ r. ok (counts_none r))
      (count_owners_except-sessions i db)

revoke_if-sessions :
    (i : ℕ) (b : Bool) (u : User) (db : Db) → (revoke_if i b u db).1.sessions ≡ db.sessions
unfolding revoke_if
revoke_if-sessions i false u db = refl
revoke_if-sessions i true u db =
    handle-sessions db.sessions (revoke_all i role_changed db) (λ r. ok u)
      (revoke_all-sessions i db)

module _ (trim : String → String) (i : ℕ) (name : String) (role : Option Role) where
  found-sessions :
      (u : User) (db : Db) → (update_found trim i name role u db).1.sessions ≡ db.sessions
  unfolding update_found
  found-sessions u db =
      bind-sessions db.sessions (Users.update i _ _ db) _ (update-sessions i _ _ db)
        (λ v db' e. revoke_if-sessions i _ v db' ∙ e)

  guarded-sessions :
      (u : User) (db : Db) → (update_guarded trim i name role u db).1.sessions ≡ db.sessions
  unfolding update_guarded
  guarded-sessions u db =
      bind-sessions db.sessions (is_last_owner i (demotes role u) db) _
        (is_last_owner-sessions i _ db)
        (λ last db' e. elim (Bool-cases last) [
          | inl t ↦ rw t e
          | inr t ↦ rw t (found-sessions u db' ∙ e)
        ])

  -- No `Update` ends a session: a change of role leaves every refresh session as it was, because the
  -- reason that the code gives is not in the enum of the database.
  pub update_user-sessions : (db : Db) → (update_user trim i name role db).1.sessions ≡ db.sessions
  unfolding update_user
  update_user-sessions db =
      let found =
        bind-sessions db.sessions (Users.get_by_id i db) (update_guarded trim i name role)
          (get_by_id-sessions i db) (λ u db' e. guarded-sessions u db' ∙ e) in
      elim (Bool-cases (is_empty (trim name) && is_absent role)) [
        | inl a ↦ rw a refl
        | inr a ↦ elim (Bool-cases (is_unknown role)) [
          | inl b ↦ rw (a, b) refl
          | inr b ↦ rw (a, b) found
        ]
      ]
