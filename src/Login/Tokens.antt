-- ===== src/Login/Tokens.antt =====
-- auth.go, `AuthService`: login, refresh and logout over the refresh sessions. The issuer of access
-- tokens, the random refresh tokens, their hash and the check of a password are parameters.
use jg_smm.Prelude.{ℕ, ◌+◌, String, Bool, true, false, if◌then◌else◌}
use jg_smm.Domain.Role.{Role}
use jg_smm.Domain.Entities.{User}
use jg_smm.Store.{Db, M, Result, ok, err, not_found, unauthorized, rate_limited, pure, ◌>>=◌, ◌>>◌}
use jg_smm.Store.Users.{get_by_email, get_active, revoke, create_session, rotated, logout}
use jg_smm.Login.{Limiter, allow}

pub record Ports : Type 0 where
  pub issue : ℕ → Role → Db → Result String
  pub generate : Db → Result String
  pub hash : String → ℕ
  pub verify_password : String → User → Bool
  pub new_id : Db → ℕ

abbrev pub access_token_ttl : ℕ
access_token_ttl = 86_400_000_000_000

abbrev pub refresh_token_ttl : ℕ
refresh_token_ttl = 2_592_000_000_000_000

pub record Session : Type 0 where
  pub access_token : String
  pub refresh_token : String
  pub access_expiry : ℕ
  pub user : User

module _ (ports : Ports) where
  open ports use {issue, generate, hash, verify_password, new_id}

  unfoldable pub stored_session : User → String → String → M Session
  stored_session u access token db =
      (create_session new_id u.id (hash token) (db.now + refresh_token_ttl)
          >> pure (record {
            access_token = access;
            refresh_token = token;
            access_expiry = db.now + access_token_ttl;
            user = u;
          }))
        db

  abbrev pub after_generate : User → String → Result String → M Session
  after_generate u access (err e) db = (err e, db)
  after_generate u access (ok token) db = stored_session u access token db

  abbrev pub after_issue : User → Result String → M Session
  after_issue u (err e) db = (err e, db)
  after_issue u (ok access) db = after_generate u access (generate db) db

  unfoldable pub start_session : User → M Session
  unfolding stored_session
  start_session u db = after_issue u (issue u.id u.role db) db

  -- `Refresh`: the presented token is revoked before the new pair is issued.
  unfoldable pub refresh : String → M Session
  unfolding start_session
  refresh token =
      get_active (hash token) >>= λ found. revoke (hash token) rotated >> start_session found.1

  abbrev pub is_blank : String → Bool
  is_blank String.[] = true
  is_blank (String.◌∷◌ c s) = false

  unfoldable pub log_out : String → M (Unit {0})
  log_out token = if is_blank token then pure tt else revoke (hash token) logout

  unfoldable pub after_email : String → Result User × Db → Result Session × Db
  unfolding start_session
  after_email password (err not_found, db) = (err unauthorized, db)
  after_email password (err e, db) = (err e, db)
  after_email password (ok u, db) =
      if verify_password password u then start_session u db else (err unauthorized, db)

  -- `Login`: the limiter is asked first, and remembers the attempt.
  unfoldable pub log_in : String → String → ℕ → Limiter → Db → Result Session × (Limiter × Db)
  unfolding after_email
  log_in email password ip l db =
      let (pass, l') = allow db.now ip l in
      if pass
      then (let (r, db') = after_email password (get_by_email email db) in (r, (l', db')))
      else (err rate_limited, (l', db))
