-- ===== src/Users/Owners.antt =====
-- user.go, `Update` and `Remove`: the owners of the team afterwards.
use jg_smm.Prelude.{
  ℕ, ◌≤◌, ◌≡◌, refl, ◌⊎◌, inl, inr, Bool, true, false, ◌&&◌, ◌==◌, List, Option, some, String,
  arith, find, keep, count, Bool-cases, if◌then◌else◌,
}
use jg_smm.Domain.Role.{Role, is_owner}
use jg_smm.Domain.Entities.{User}
use jg_smm.Store.{Db, Result, ok, err, bind_result, throw, conflict}
use jg_smm.Store.Users
use jg_smm.Store.Users.{
  has_user_id, lacks_user_id, owns, owns_other, renamed, count_owners_except, revoke_all,
  role_changed,
}
use jg_smm.Users.{
  is_empty, is_absent, is_unknown, is_last_owner, demotes, role_or, update_found, update_guarded,
  update_user, remove_found, remove, name_or,
}
use jg_smm.Users.Counts.{
  HasOwner, UniqueUsers, Asked, count-keep_others, count-others_found, is_last_owner-Asked,
  revoke_if-users, update-users, renamed-HasOwner, owner_or_other,
}

module _ (trim : String → String) (i : ℕ) (name : String) (role : Option Role) where
  found-HasOwner :
      (u : User) (db : Db)
      → HasOwner db.users
      → (is_owner (role_or role u.role) ≡ true) ⊎ (1 ≤ count (owns_other i) db.users)
      → HasOwner (update_found trim i name role u db).1.users
  unfolding update_found
  found-HasOwner u db h o =
      rw (revoke_if-users i _ (Users.update i (name_or trim name u.name) (role_or role u.role) db))
        (elim (update-users i (name_or trim name u.name) (role_or role u.role) db) [
          | inl e ↦ rw e h
          | inr e ↦ rw e (renamed-HasOwner i _ _ db.users h o)
        ])

  Asked-HasOwner :
      (u : User) (before : List User) (x : Result Bool × Db)
      → Asked i (demotes role u) before x
      → find (has_user_id i) before ≡ some u
      → UniqueUsers before
      → HasOwner before
      → HasOwner
          (bind_result x
            (λ last. if last then throw conflict else update_found trim i name role u)).1.users
  Asked-HasOwner u before (err e, db) a f q h = rw a.same_users h
  Asked-HasOwner u before (ok true, db) a f q h = rw a.same_users h
  Asked-HasOwner u before (ok false, db) a f q h =
      found-HasOwner u db (rw a.same_users h)
        (rw a.same_users (owner_or_other i role u before f q h (a.another refl)))

  looked_up-HasOwner :
      (x : Result User × Db) (before : List User)
      → x.1.users ≡ before
      → ((u : User) → x.0 ≡ ok u → find (has_user_id i) before ≡ some u)
      → UniqueUsers before
      → HasOwner before
      → HasOwner (bind_result x (update_guarded trim i name role)).1.users
  unfolding update_guarded
  looked_up-HasOwner (err e, db) before s f q h = rw s h
  looked_up-HasOwner (ok u, db) before s f q h =
      Asked-HasOwner u before (is_last_owner i (demotes role u) db)
        (rw (← s) (is_last_owner-Asked i (demotes role u) db)) (f u refl) q h

get_by_id_lem :
    (i : ℕ) (db : Db)
    → ((Users.get_by_id i db).1.users ≡ db.users)
      × ((u : User) → (Users.get_by_id i db).0 ≡ ok u → find (has_user_id i) db.users ≡ some u)
unfolding Users.get_by_id
get_by_id_lem i db = ground arith

-- If the team has an owner and ids are unique, it has one after any `Update`: of any user, to any
-- name and role, whatever the answer and whichever statements failed, the count of the other owners
-- included.
pub update_user-HasOwner :
    (trim : String → String) (i : ℕ) (name : String) (role : Option Role) (db : Db)
    → UniqueUsers db.users
    → HasOwner db.users
    → HasOwner (update_user trim i name role db).1.users
unfolding update_user
update_user-HasOwner trim i name role db q h =
    let (e, f) = get_by_id_lem i db in
    let found = looked_up-HasOwner trim i name role (Users.get_by_id i db) db.users e f q h in
    elim (Bool-cases (is_empty (trim name) && is_absent role)) [
      | inl a ↦ rw a h
      | inr a ↦ elim (Bool-cases (is_unknown role)) [
        | inl b ↦ rw (a, b) h
        | inr b ↦ rw (a, b) found
      ]
    ]

delete-users :
    (i : ℕ) (db : Db)
    → ((Users.delete i db).1.users ≡ db.users)
      ⊎ ((Users.delete i db).1.users ≡ keep (lacks_user_id i) db.users)
unfolding Users.delete
delete-users i db = ground arith

deleted-HasOwner :
    (i : ℕ) (db : Db)
    → HasOwner db.users
    → 1 ≤ count (owns_other i) db.users
    → HasOwner (Users.delete i db).1.users
deleted-HasOwner i db h o = elim (delete-users i db) [
  | inl e ↦ rw e h
  | inr e ↦ rw (e, count-keep_others i db.users) o
]

module _ (i : ℕ) (u : User) (before : List User) (f : find (has_user_id i) before ≡ some u)
    (q : UniqueUsers before) (h : HasOwner before) where
  another_owner :
      (is_owner u.role ≡ false) ⊎ (1 ≤ count (owns_other i) before)
      → 1 ≤ count (owns_other i) before
  another_owner (inl e) = omega (arith, h, count-others_found i u before f e (q i))
  another_owner (inr o) = o

  removed-HasOwner :
      (x : Result Bool × Db)
      → Asked i (is_owner u.role) before x
      → HasOwner (bind_result x (λ last. if last then throw conflict else Users.delete i)).1.users
  removed-HasOwner (err e, db) a = rw a.same_users h
  removed-HasOwner (ok true, db) a = rw a.same_users h
  removed-HasOwner (ok false, db) a =
      deleted-HasOwner i db (rw a.same_users h) (rw a.same_users (another_owner (a.another refl)))

remove_looked_up :
    (i : ℕ) (x : Result User × Db) (before : List User)
    → x.1.users ≡ before
    → ((u : User) → x.0 ≡ ok u → find (has_user_id i) before ≡ some u)
    → UniqueUsers before
    → HasOwner before
    → HasOwner (bind_result x (remove_found i)).1.users
unfolding remove_found
remove_looked_up i (err e, db) before s f q h = rw s h
remove_looked_up i (ok u, db) before s f q h =
    removed-HasOwner i u before (f u refl) q h (is_last_owner i (is_owner u.role) db)
      (rw (← s) (is_last_owner-Asked i (is_owner u.role) db))

-- If the team has an owner and ids are unique, it has one after any `Remove`, by any actor, whatever
-- the answer and whichever statements failed.
pub remove-HasOwner :
    (i actor : ℕ) (db : Db)
    → UniqueUsers db.users
    → HasOwner db.users
    → HasOwner (remove i actor db).1.users
unfolding remove
remove-HasOwner i actor db q h = elim (Bool-cases (i == actor)) [
  | inl e ↦ rw e h
  | inr e ↦
      let (s, f) = get_by_id_lem i db in
      rw e (remove_looked_up i (Users.get_by_id i db) db.users s f q h)
]
