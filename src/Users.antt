-- ===== src/Users.antt =====
-- apps/api/internal/service/user.go: renaming, promoting, demoting and removing the users of the team.
-- `trim` is TrimSpace of the strings package. The session store is always wired.
pub mod Counts
pub mod Creation
pub mod Emails
pub mod Owners
pub mod Sessions
use jg_smm.Prelude.{
  ℕ, String, Bool, true, false, ◌&&◌, not, ◌==◌, if◌then◌else◌, Option, none, some,
}
use jg_smm.Domain.Role.{
  Role, owner, strategist, operator, analyst, Role.other, is_owner, is_valid_role,
}
use jg_smm.Domain.Entities.{User}
use jg_smm.Store.{
  Db, M, Result, ok, err, conflict, validation, pure, throw, attempt, bind_result, ◌>>=◌,
}
use jg_smm.Store.Users
use jg_smm.Store.Users.{count_owners_except, revoke_all, role_changed}

abbrev pub is_empty : String → Bool
is_empty String.[] = true
is_empty (String.◌∷◌ c s) = false

abbrev pub is_absent : Option Role → Bool
is_absent none = true
is_absent (some r) = false

abbrev pub is_unknown : Option Role → Bool
is_unknown none = false
is_unknown (some r) = not (is_valid_role r)

abbrev pub role_or : Option Role → Role → Role
role_or none old = old
role_or (some r) old = r

abbrev pub same_role : Role → Role → Bool
same_role owner owner = true
same_role strategist strategist = true
same_role operator operator = true
same_role analyst analyst = true
same_role Role.other Role.other = true
same_role _ _ = false

-- `count, _ := ...; count == 0`: a failed count reads as 0.
abbrev pub counts_none : Result ℕ → Bool
counts_none (ok n) = n == 0
counts_none (err e) = true

-- Whether the user is an owner who would be the last.
unfoldable pub is_last_owner : ℕ → Bool → M Bool
is_last_owner i false = pure false
is_last_owner i true = attempt (count_owners_except i) λ r. pure (counts_none r)

abbrev pub demotes : Option Role → User → Bool
demotes role u = is_owner u.role && not (is_owner (role_or role u.role))

-- The revocation after a change of role; its error is only logged.
unfoldable pub revoke_if : ℕ → Bool → User → M User
revoke_if i false u = pure u
revoke_if i true u = attempt (revoke_all i role_changed) λ r. pure u

module _ (trim : String → String) where
  abbrev pub name_or : String → String → String
  name_or name old = if is_empty (trim name) then old else trim name

  unfoldable pub update_found : ℕ → String → Option Role → User → M User
  unfolding revoke_if
  update_found i name role u =
      Users.update i (name_or name u.name) (role_or role u.role)
      >>= revoke_if i (not (same_role (role_or role u.role) u.role))

  unfoldable pub update_guarded : ℕ → String → Option Role → User → M User
  unfolding update_found is_last_owner
  update_guarded i name role u = is_last_owner i (demotes role u) >>= λ last.
      if last then throw conflict else update_found i name role u

  -- `Update`.
  unfoldable pub update_user : ℕ → String → Option Role → M User
  unfolding update_guarded
  update_user i name role =
      if is_empty (trim name) && is_absent role
      then throw validation
      else if is_unknown role
      then throw validation
      else Users.get_by_id i >>= update_guarded i name role

unfoldable pub remove_found : ℕ → User → M (Unit {0})
unfolding is_last_owner
remove_found i u =
    is_last_owner i (is_owner u.role) >>= λ last. if last then throw conflict else Users.delete i

-- `Remove`.
unfoldable pub remove : ℕ → ℕ → M (Unit {0})
unfolding remove_found
remove i actor = if i == actor then throw conflict else Users.get_by_id i >>= remove_found i
