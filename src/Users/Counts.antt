-- ===== src/Users/Counts.antt =====
-- user.go: how many owners a team has after its rows change, and what asking for the last one tells.
use jg_smm.Prelude.{
  ℕ, ◌≤◌, ◌≡◌, refl, ◌⊎◌, inl, inr, Bool, true, false, List, [], ◌∷◌, Option, some, String, arith,
  find, keep, count, Bool-cases,
}
use jg_smm.Prelude.Table.{update_where}
use jg_smm.Domain.Role.{Role, is_owner}
use jg_smm.Domain.Entities.{User}
use jg_smm.Store.{Db, Result, ok, err, bind_result, handle_result}
use jg_smm.Store.Users
use jg_smm.Store.Users.{
  has_user_id, lacks_user_id, owns, owns_other, renamed, count_owners_except, revoke_all,
  role_changed,
}
use jg_smm.Users.{is_last_owner, demotes, role_or, revoke_if, counts_none}

abbrev pub HasOwner : List User → Type 0
HasOwner users = 1 ≤ count owns users

abbrev pub UniqueUsers : List User → Type 0
UniqueUsers users = (i : ℕ) → count (has_user_id i) users ≤ 1

pub count-keep_others :
    (i : ℕ) (us : List User) → count owns (keep (lacks_user_id i) us) ≡ count (owns_other i) us
count-keep_others i [] = refl
count-keep_others i (u ∷ us) = ground (arith, count-keep_others i us)

count-renamed_others :
    (i : ℕ) (name : String) (role : Role) (us : List User)
    → count (owns_other i) us ≤ count owns (update_where (has_user_id i) (renamed name role) us)
unfolding update_where
count-renamed_others i name role [] = omega arith
count-renamed_others i name role (u ∷ us) = ground (arith, count-renamed_others i name role us)

count-renamed_owner :
    (i : ℕ) (name : String) (role : Role) (us : List User)
    → is_owner role ≡ true
    → count owns us ≤ count owns (update_where (has_user_id i) (renamed name role) us)
unfolding update_where
count-renamed_owner i name role [] h = omega arith
count-renamed_owner i name role (u ∷ us) h = ground (arith, count-renamed_owner i name role us)

count-others_absent :
    (i : ℕ) (us : List User)
    → count (has_user_id i) us ≡ 0
    → count owns us ≤ count (owns_other i) us
count-others_absent i [] h = omega arith
count-others_absent i (u ∷ us) h = ground (arith, count-others_absent i us)

pub count-others_found :
    (i : ℕ) (u : User) (us : List User)
    → find (has_user_id i) us ≡ some u
    → is_owner u.role ≡ false
    → count (has_user_id i) us ≤ 1
    → count owns us ≤ count (owns_other i) us
count-others_found i u [] h o c = omega arith
count-others_found i u (v ∷ us) h o c =
    ground (arith, count-others_absent i us, count-others_found i u us)

-- A call that keeps the users and, when it says that the owner is not the last, knows another one.
pub record Asked (i : ℕ) (b : Bool) (before : List User) (x : Result Bool × Db) : Type 0 where
  pub same_users : x.1.users ≡ before
  pub another : x.0 ≡ ok false → (b ≡ false) ⊎ (1 ≤ count (owns_other i) before)

counted-Asked :
    (i : ℕ) (before : List User) (x : Result ℕ × Db)
    → x.1.users ≡ before
    → ((n : ℕ) → x.0 ≡ ok n → n ≡ count (owns_other i) before)
    → Asked i true before (handle_result x (λ r db. (ok (counts_none r), db)))
counted-Asked i before (ok n, db) e c = ground (arith, e, c n)
counted-Asked i before (err q, db) e c = ground (arith, e)

count_owners_except_lem :
    (i : ℕ) (db : Db)
    → ((count_owners_except i db).1.users ≡ db.users)
      × ((n : ℕ) → (count_owners_except i db).0 ≡ ok n → n ≡ count (owns_other i) db.users)
unfolding count_owners_except
count_owners_except_lem i db = ground arith

pub is_last_owner-Asked : (i : ℕ) (b : Bool) (db : Db) → Asked i b db.users (is_last_owner i b db)
unfolding is_last_owner
is_last_owner-Asked i false db = ground arith
is_last_owner-Asked i true db =
    let (e, c) = count_owners_except_lem i db in
    counted-Asked i db.users (count_owners_except i db) e c

revoke_all-users : (i : ℕ) (db : Db) → (revoke_all i role_changed db).1.users ≡ db.users
unfolding revoke_all
revoke_all-users i db = ground arith

quiet-state :
    (x : Result (Unit {0}) × Db) (u : User) → (handle_result x (λ r db. (ok u, db))).1 ≡ x.1
quiet-state (r, db) u = refl

pub revoke_if-users :
    (i : ℕ) (b : Bool) (x : Result User × Db) → (bind_result x (revoke_if i b)).1.users ≡ x.1.users
unfolding revoke_if
revoke_if-users i b (err e, db) = refl
revoke_if-users i false (ok u, db) = refl
revoke_if-users i true (ok u, db) =
    rw (quiet-state (revoke_all i role_changed db) u) (revoke_all-users i db)

pub update-users :
    (i : ℕ) (name : String) (role : Role) (db : Db)
    → ((Users.update i name role db).1.users ≡ db.users)
      ⊎ ((Users.update i name role db).1.users
          ≡ update_where (has_user_id i) (renamed name role) db.users)
unfolding Users.update
update-users i name role db = ground arith

pub renamed-HasOwner :
    (i : ℕ) (name : String) (role : Role) (us : List User)
    → HasOwner us
    → (is_owner role ≡ true) ⊎ (1 ≤ count (owns_other i) us)
    → HasOwner (update_where (has_user_id i) (renamed name role) us)
renamed-HasOwner i name role us h (inl e) = omega (arith, h, count-renamed_owner i name role us e)
renamed-HasOwner i name role us h (inr o) = omega (arith, o, count-renamed_others i name role us)

-- A demotion that is let through leaves another owner.
pub owner_or_other :
    (i : ℕ) (role : Option Role) (u : User) (us : List User)
    → find (has_user_id i) us ≡ some u
    → UniqueUsers us
    → HasOwner us
    → (demotes role u ≡ false) ⊎ (1 ≤ count (owns_other i) us)
    → (is_owner (role_or role u.role) ≡ true) ⊎ (1 ≤ count (owns_other i) us)
owner_or_other i role u us f q h (inr o) = inr o
owner_or_other i role u us f q h (inl d) = elim (Bool-cases (is_owner u.role)) [
  | inl e ↦ inl (ground (arith, e, d))
  | inr e ↦ inr (omega (arith, h, count-others_found i u us f e (q i)))
]
