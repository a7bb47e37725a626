-- ===== src/Accounts.antt =====
-- apps/api/internal/service/account.go: the accounts as the operator handles them. The stream is wired
-- always; the packer, the sealer and the control channel may be absent. What the sealer returns is
-- not kept, and the choice of an id is the database's.
pub mod Lifecycle
pub mod Auth
pub mod Creation
pub mod Import
pub mod Exports
pub mod Regions
use jg_smm.Prelude.{ℕ, String, Bool, true, false, List, Option, none, some}
use jg_smm.Prelude.Int.{ℤ, pos}
use jg_smm.Domain.Status.{Platform, AuthStatus, AccountStatus}
use jg_smm.Domain.Entities.{Account, Worker}
use jg_smm.Store.{
  Db, M, Result, ok, err, account_updated, validation, unavailable, pure, throw, bind_result, ◌>>=◌,
  ◌>>◌, publish,
}
use jg_smm.Store.Accounts.Creation.{create}
use jg_smm.Packer.{Config, Ports, pack, pack_into, resolve_container}

-- `AccountInput`. A text that is no platform is `none`.
pub record AccountInput : Type 0 where
  pub platform : Option Platform
  pub username : String
  pub password : String
  pub proxy_group_id : Option ℕ
  pub worker_id : Option ℕ
  pub tags : List String

abbrev pub non_empty : String → Bool
non_empty String.[] = false
non_empty (String.◌∷◌ c s) = true

-- `Validate`, with the platform that it found to be one.
abbrev pub checked_password : Platform → Bool → Result Platform
checked_password p false = err validation
checked_password p true = ok p

abbrev pub checked_username : AccountInput → Platform → Bool → Result Platform
checked_username input p false = err validation
checked_username input p true = checked_password p (non_empty input.password)

abbrev pub checked_platform : AccountInput → Option Platform → Result Platform
checked_platform input none = err validation
checked_platform input (some p) = checked_username input p (non_empty input.username)

unfoldable pub validate : AccountInput → Result Platform
validate input = checked_platform input input.platform

-- What the service is built with besides the stores.
pub record Parts : Type 0 where
  pub seal : Option (String → Result (List ℕ))
  pub packer : Option (Ports × Config)
  pub new_id : Db → ℕ

-- `AccountSummary` and `toAccountView`; the time is not formatted.
pub record AccountSummary : Type 0 where
  pub id : ℕ
  pub platform : Platform
  pub username : String
  pub handle : Option String
  pub auth_status : AuthStatus
  pub status : AccountStatus
  pub health_score : ℤ
  pub worker_id : Option ℕ
  pub tags : List String
  pub last_error : Option String
  pub created_at : ℕ

abbrev pub to_account_view : Account → AccountSummary
to_account_view a = record {
  id = a.id;
  platform = a.platform;
  username = a.username;
  handle = a.handle;
  auth_status = a.auth_status;
  status = a.status;
  health_score = a.health_score;
  worker_id = a.worker_id;
  tags = a.tags;
  last_error = a.last_error;
  created_at = a.created_at;
}

-- The row that `Create` hands to the store.
abbrev pub new_account : AccountInput → Platform → Account
new_account input p = record {
  id = 0;
  platform = p;
  username = input.username;
  auth_status = AuthStatus.authenticating;
  handle = none;
  last_verified = none;
  proxy_group_id = input.proxy_group_id;
  health_score = pos 0;
  status = AccountStatus.active;
  tags = input.tags;
  worker_id = none;
  last_used_at = none;
  last_checked = none;
  last_error = none;
  created_at = 0;
}

unfoldable pub sealed : Option (String → Result (List ℕ)) → String → M (List ℕ)
sealed none password db = (err unavailable, db)
sealed (some seal) password db = (seal password, db)

abbrev pub Created : Type 0
Created = AccountSummary × Option Worker

unfoldable pub show_created : Account → Option Worker → M Created
unfolding publish
show_created a w = publish (account_updated a.id) >> pure (to_account_view a, w)

-- A placement that fails is logged: the account is there and has no container.
unfoldable pub after_pack : Account → Result (Account × Worker) × Db → Result Created × Db
unfolding show_created
after_pack a (err e, db) = show_created a none db
after_pack a (ok (packed, w), db) = show_created packed (some w) db

unfoldable pub place : Option (Ports × Config) → Option ℕ → Account → M Created
unfolding after_pack
place none none a db = show_created a none db
place none (some w) a db = (err unavailable, db)
place (some (ports, cfg)) none a db = after_pack a (pack ports cfg a.id a.platform db)
place (some (ports, cfg)) (some w) a db =
    bind_result (resolve_container ports cfg w a.platform db)
      (λ found db'. after_pack a (pack_into ports cfg a.id a.platform w db'))

unfoldable pub stored : Parts → AccountInput → Platform → M Account
unfolding sealed
stored parts input p = sealed parts.seal input.password >> create parts.new_id (new_account input p)

unfoldable pub create_valid : Parts → AccountInput → Platform → M Created
unfolding stored place
create_valid parts input p = stored parts input p >>= place parts.packer input.worker_id

-- `Create`.
unfoldable pub create_account : Parts → AccountInput → M Created
unfolding validate create_valid
create_account parts input db = bind_result (validate input, db) (create_valid parts input)
