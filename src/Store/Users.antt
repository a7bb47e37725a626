-- ===== src/Store/Users.antt =====
-- apps/api/internal/repository/auth.go: the users and their refresh sessions, with the queries of
-- apps/api/db/queries/core.sql and auth.sql and the enums of the migrations 000001 and 000002.
use jg_smm.Prelude.{
  ℕ, String, Bool, true, false, ◌&&◌, not, ◌==◌, if◌then◌else◌, none, some, find, keep, count,
}
use jg_smm.Prelude.{List, [], ◌∷◌, ◌++◌, Option, ltb, any, ◌||◌, take}
use jg_smm.Prelude.Text.{codes}
use jg_smm.Store.Workers.{same_text, page_limit}
use jg_smm.Store.{Db, Result, unauthorized}
use jg_smm.Prelude.Table.{update_where}
use jg_smm.Domain.Role.{Role, is_owner, is_valid_role}
use jg_smm.Domain.Entities.{User, AuthSession}
use jg_smm.Store.{M, ok, err, not_found, conflict, driver, query}

abbrev pub has_user_id : ℕ → User → Bool
has_user_id i u = u.id == i

abbrev pub lacks_user_id : ℕ → User → Bool
lacks_user_id i u = not (u.id == i)

abbrev pub owns : User → Bool
owns u = is_owner u.role

abbrev pub owns_other : ℕ → User → Bool
owns_other i u = is_owner u.role && not (u.id == i)

unfoldable pub get_by_id : ℕ → M User
get_by_id i =
    query λ db. elim (find (has_user_id i) db.users) [
      | none ↦ (err not_found, db)
      | some u ↦ (ok u, db)
    ]

abbrev pub renamed : String → Role → User → User
renamed name role u = record u { name = name; role = role }

-- A role that the database's enum lacks is refused by the database.
unfoldable pub update : ℕ → String → Role → M User
unfolding update_where
update i name role = query λ db.
    if is_valid_role role
    then elim (find (has_user_id i) db.users) [
      | none ↦ (err not_found, db)
      | some u ↦ (
        ok (renamed name role u),
        record db { users = update_where (has_user_id i) (renamed name role) db.users },
      )
    ]
    else (err driver, db)

abbrev pub is_other_user : ℕ → AuthSession → Bool
is_other_user i s = not (s.user_id == i)

-- The sessions of a deleted user go with the row (ON DELETE CASCADE).
unfoldable pub delete : ℕ → M (Unit {0})
delete i = query λ db. (
  ok tt,
  record db {
    users = keep (lacks_user_id i) db.users;
    sessions = keep (is_other_user i) db.sessions;
  },
)

unfoldable pub count_owners_except : ℕ → M ℕ
count_owners_except i = query λ db. (ok (count (owns_other i) db.users), db)

-- The reasons that the code writes. The enum `auth_session_revoked_reason` declares the first three.
pub data RevokedReason : Type 0 where
  logout rotated reuse role_changed : RevokedReason

abbrev pub is_declared : RevokedReason → Bool
is_declared role_changed = false
is_declared _ = true

abbrev pub is_live_of : ℕ → AuthSession → Bool
is_live_of i s = s.user_id == i && elim s.revoked_at [ none ↦ true | some t ↦ false ]

abbrev pub revoked : ℕ → AuthSession → AuthSession
revoked now s = record s { revoked_at = some now }

-- A reason outside the enum is an error of the database, whichever rows match.
unfoldable pub revoke_all : ℕ → RevokedReason → M (Unit {0})
unfolding update_where
revoke_all i reason = query λ db.
    if is_declared reason
    then (ok tt, record db { sessions = update_where (is_live_of i) (revoked db.now) db.sessions })
    else (err driver, db)

-- The address is unique.
abbrev pub has_email : String → User → Bool
has_email email u = same_text (codes u.email) (codes email)

unfoldable pub get_by_email : String → M User
get_by_email email = query λ db. elim (find (has_email email) db.users) [
  | none ↦ (err not_found, db)
  | some u ↦ (ok u, db)
]

abbrev pub is_unrevoked : AuthSession → Bool
is_unrevoked s = elim s.revoked_at [ none ↦ true | some t ↦ false ]

abbrev pub is_live_hash : ℕ → AuthSession → Bool
is_live_hash h s = s.token_hash == h && is_unrevoked s

-- A session that `GetActiveAuthSession` finds: the hash, not revoked, not expired.
abbrev pub is_active : ℕ → ℕ → AuthSession → Bool
is_active h now s = is_live_hash h s && ltb now s.expires_at

-- The join with the user of the session.
abbrev pub with_user : AuthSession → Option User → Db → Result (AuthSession × User) × Db
with_user s none db = (err unauthorized, db)
with_user s (some u) db = (ok (s, u), db)

abbrev pub joined : Option AuthSession → Db → Result (AuthSession × User) × Db
joined none db = (err unauthorized, db)
joined (some s) db = with_user s (find (has_user_id s.user_id) db.users) db

unfoldable pub get_active : ℕ → M (AuthSession × User)
get_active h = query λ db. joined (find (is_active h db.now) db.sessions) db

unfoldable pub revoke : ℕ → RevokedReason → M (Unit {0})
unfolding update_where
revoke h reason = query λ db.
    if is_declared reason
    then (
      ok tt,
      record db { sessions = update_where (is_live_hash h) (revoked db.now) db.sessions },
    )
    else (err driver, db)

abbrev pub has_hash : ℕ → AuthSession → Bool
has_hash h s = s.token_hash == h

abbrev pub new_session : ℕ → ℕ → ℕ → ℕ → AuthSession
new_session id user h expires = record {
  id = id;
  user_id = user;
  token_hash = h;
  expires_at = expires;
  revoked_at = none;
}

-- The hash of a token is unique, and the user a foreign key.
unfoldable pub create_session : (Db → ℕ) → ℕ → ℕ → ℕ → M (Unit {0})
create_session new_id user h expires = query λ db.
    if any (has_hash h) db.sessions || not (any (has_user_id user) db.users)
    then (err driver, db)
    else (
      ok tt,
      record db { sessions = db.sessions ++ (new_session (new_id db) user h expires ∷ []) },
    )

abbrev pub new_user : ℕ → ℕ → String → String → Role → User
new_user id now email name role = record {
  id = id;
  email = email;
  name = name;
  role = role;
  created_at = now;
}

-- The users stand in the order of the listing, newest first. The column of the password's hash is left
-- out. A role that the enum lacks is refused before the index on the address is read.
abbrev pub insert : (String → String) → (Db → ℕ) → String → String → Role → M User
insert lower new_id email name role db =
    if not (is_valid_role role)
    then (err driver, db)
    else if any (has_email (lower email)) db.users
    then (err conflict, db)
    else (
      ok (new_user (new_id db) db.now (lower email) name role),
      record db { users = new_user (new_id db) db.now (lower email) name role ∷ db.users },
    )

unfoldable pub create : (String → String) → (Db → ℕ) → String → String → Role → M User
create lower new_id email name role = query (insert lower new_id email name role)

-- The offset of the one caller is 0.
unfoldable pub list : ℕ → M (List User)
unfolding page_limit
list limit = query λ db. (ok (take (page_limit limit) db.users), db)
