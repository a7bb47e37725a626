-- ===== src/Users/Creation.antt =====
-- apps/api/internal/service/user.go, Create and List. TrimSpace, the two ways to write in small letters
-- (ToLower, and lower of the database), HashPassword, the ids and the layout of a time are functions.
-- The length of a password is that of its bytes in UTF-8.
use jg_smm.Prelude.{
  ℕ, String, Bool, false, ◌&&◌, not, ◌==◌, ltb, any, length, if◌then◌else◌, List, [], ◌∷◌, Option,
  none, some, map,
}
use jg_smm.Prelude.Text.{codes, byte_length}
use jg_smm.Domain.Role.{Role, is_valid_role}
use jg_smm.Domain.Entities.{User}
use jg_smm.Store.{Db, M, Result, ok, err, validation, pure, throw, ◌>>=◌}
use jg_smm.Store.Users
use jg_smm.Users.{is_empty}

pub record UserInput : Type 0 where
  pub email : String
  pub name : String
  pub password : String
  pub role : Role

pub record UserSummary : Type 0 where
  pub id : ℕ
  pub email : String
  pub name : String
  pub role : Role
  pub created_at : String

-- What follows the first `@`.
unfoldable pub domain_part : List ℕ → Option (List ℕ)
domain_part [] = none
domain_part (c ∷ cs) = if c == 64 then some cs else domain_part cs

abbrev pub is_dot : ℕ → Bool
is_dot c = c == 46

abbrev pub is_domain : Option (List ℕ) → Bool
is_domain none = false
is_domain (some d) = not (length d == 0) && any is_dot d

unfoldable pub valid_email : List ℕ → Bool
unfolding domain_part
valid_email [] = false
valid_email (c ∷ cs) = not (c == 64) && is_domain (domain_part cs)

pub record Texts : Type 0 where
  pub trim : String → String
  pub to_lower : String → String
  pub lower : String → String
  pub hash_password : String → Result String
  pub layout : ℕ → String
  pub new_id : Db → ℕ

module _ (texts : Texts) where
  open texts use {trim, to_lower, lower, hash_password, layout, new_id}

  -- `Validate`.
  unfoldable pub is_valid_input : UserInput → Bool
  unfolding valid_email byte_length
  is_valid_input input =
      valid_email (codes input.email)
      && (not (is_empty (trim input.name))
          && (not (ltb (byte_length (codes input.password)) 8) && is_valid_role input.role))

  abbrev pub to_view : User → UserSummary
  to_view u = record {
    id = u.id;
    email = u.email;
    name = u.name;
    role = u.role;
    created_at = layout u.created_at;
  }

  abbrev pub shown : User → M UserSummary
  shown u = pure (to_view u)

  abbrev pub after_hash : UserInput → Result String → M UserSummary
  after_hash input (err e) = throw e
  after_hash input (ok h) =
      Users.create lower new_id (to_lower (trim input.email)) (trim input.name) input.role >>= shown

  -- `Create`.
  unfoldable pub create_user : UserInput → M UserSummary
  unfolding is_valid_input
  create_user input =
      if is_valid_input input
      then after_hash input (hash_password input.password)
      else throw validation

  -- `List`.
  unfoldable pub list_users : M (List UserSummary)
  list_users = Users.list 200 >>= λ rows. pure (map to_view rows)
