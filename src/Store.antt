-- ===== src/Store.antt =====
-- The database behind apps/api/internal/repository, as one value, and the monad of calls on it.
-- A call of the store may fail for a reason of its own (the connection, a timeout): `faults` says of
-- each call in turn whether it does, so a statement about every `Db` covers every such failure. A
-- call that returns an error changes no row, but what earlier calls wrote stays written.
pub mod Jobs
pub mod Accounts
pub mod Workers
pub mod Users
pub mod Scrapes
pub mod Queued
pub mod Posts
pub mod Keywords
pub mod Texts
use jg_smm.Prelude.{
  ◌%◌, leb, String, ℕ, ◌≡◌, Bool, true, false, List, [], ◌∷◌, ◌++◌, Option, none, some,
}
use jg_smm.Domain.Status.{Platform}
use jg_smm.Domain.Entities.{
  Account, Worker, ActionJob, ActionLog, User, AuthSession, Heartbeat, ScrapeJob, Target,
}
use jg_smm.Domain.Content.{Content}

-- The sentinel errors of domain/errors.go and template.go; `driver` stands for every other error.
pub data Err : Type 0 where
  not_found conflict unauthorized forbidden validation rate_limited unavailable : Err
  template_pool_empty banned_pattern driver : Err

pub data Result {ℓ} (A : Type ℓ) : Type ℓ where
  ok : A → Result A
  err : Err → Result A

abbrev pub is_ok {ℓ} : {A : Type ℓ} → Result A → Bool
is_ok (ok a) = true
is_ok (err e) = false

-- A frame handed to the stream hub: which job's verdict, account, worker or container it is about.
pub data Frame : Type 0 where
  action_updated account_updated worker_health provision_updated : ℕ → Frame

-- A message on the control channel of a worker: what it asks, for which account and platform.
pub data Order : Type 0 where
  auth_login : ℕ → Platform → Order
  auth_input : ℕ → Platform → String → Order
  auth_export : ℕ → Platform → ℕ → Order
  auth_import : ℕ → Platform → List ℕ → Order
  open_browser : String → Order

pub record Db : Type 0 where
  pub accounts : List Account
  pub workers : List Worker
  pub jobs : List ActionJob
  pub logs : List ActionLog
  pub users : List User
  pub sessions : List AuthSession
  pub heartbeats : List Heartbeat
  pub scrape_jobs : List ScrapeJob
  pub targets : List Target
  pub texts : List (ℕ × String)
  pub batches : List (List ℕ)
  pub proxy_groups : List ℕ
  pub content : Content
  pub frames : List Frame
  pub orders : List (ℕ × Order)
  pub now : ℕ
  pub faults : List Bool

-- The conversion `int32(n)` of a number that is not negative keeps the lowest 32 bits, and reads as
-- negative from 2^31 on.
abbrev pub low_32 : ℕ → ℕ
low_32 n = n % 4_294_967_296

abbrev pub is_negative_32 : ℕ → Bool
is_negative_32 n = leb 2_147_483_648 (low_32 n)

abbrev pub M : Type 0 → Type 0
M A = Db → Result A × Db

abbrev pub pure : {A : Type 0} → A → M A
pure a db = (ok a, db)

abbrev pub throw : {A : Type 0} → Err → M A
throw e db = (err e, db)

abbrev pub bind_result : {A B : Type 0} → Result A × Db → (A → M B) → Result B × Db
bind_result (ok a, db) f = f a db
bind_result (err e, db) f = (err e, db)

infixl 5 ◌>>=◌ ◌>>◌
abbrev pub ◌>>=◌ : {A B : Type 0} → M A → (A → M B) → M B
◌>>=◌ m f db = bind_result (m db) f

abbrev pub ◌>>◌ : {A B : Type 0} → M A → M B → M B
m >> k = m >>= λ _. k

-- `if err != nil { ... }` after a call: the caller goes on with the result, whichever it is.
abbrev pub handle_result : {A B : Type 0} → Result A × Db → (Result A → M B) → Result B × Db
handle_result (r, db) f = f r db

abbrev pub attempt : {A B : Type 0} → M A → (Result A → M B) → M B
attempt m f db = handle_result (m db) f

-- The call of a query: it fails if the schedule says so, and otherwise runs.
abbrev pub query_with : {A : Type 0} → List Bool → M A → M A
query_with [] run db = run db
query_with (true ∷ rest) run db = (err driver, record db { faults = rest })
query_with (false ∷ rest) run db = run (record db { faults = rest })

abbrev pub query : {A : Type 0} → M A → M A
query run db = query_with db.faults run db

unfoldable pub publish : Frame → M (Unit {0})
publish frame db = (ok tt, record db { frames = db.frames ++ (frame ∷ []) })

-- `PublishControl`, which may fail like a statement: the message goes to one worker.
unfoldable pub publish_control : ℕ → Order → M (Unit {0})
publish_control w order = query λ db. (ok tt, record db { orders = db.orders ++ ((w, order) ∷ []) })
