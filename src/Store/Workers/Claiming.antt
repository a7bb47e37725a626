-- ===== src/Store/Workers/Claiming.antt =====
-- apps/api/internal/repository/worker.go, Claim: a container that boots takes a row of the workers. The
-- whole is one transaction, whose rollback undoes what it wrote. Left out are the channels and the
-- session volume of the row, and the locks, which another session would meet. `row_id` reads a text
-- as the id of a row, if it is a UUID.
use jg_smm.Prelude.{
  ℕ, ◌==◌, ◌&&◌, not, leb, Bool, true, false, if◌then◌else◌, List, [], ◌∷◌, Option, none, some,
  String, keep, any,
}
use jg_smm.Prelude.Table.{update_where}
use jg_smm.Prelude.Text.{codes}
use jg_smm.Domain.Status.{WorkerStatus, is_running}
use jg_smm.Domain.Entities.{Worker}
use jg_smm.Store.{Db, M, Result, ok, err, not_found, conflict, driver, query, bind_result}
use jg_smm.Store.Accounts.{has_worker_id}
use jg_smm.Store.Workers.{same_text, has_container, get_by_id, get_by_container_id}

-- `port.WorkerClaim`.
pub record WorkerClaim : Type 0 where
  pub container_id : String
  pub novnc_url : Option String

abbrev pub is_blank_text : String → Bool
is_blank_text String.[] = true
is_blank_text (String.◌∷◌ c s) = false

abbrev pub nil_if_empty : Option String → Option String
nil_if_empty none = none
nil_if_empty (some s) = if is_blank_text s then none else some s

abbrev pub is_pending_status : WorkerStatus → Bool
is_pending_status WorkerStatus.pending = true
is_pending_status _ = false

abbrev pub is_absent : Option String → Bool
is_absent none = true
is_absent (some c) = false

-- A row that nobody has claimed and that wants to run.
abbrev pub is_free : Worker → Bool
is_free w = is_absent w.container_id && (is_pending_status w.status && is_running w.desired_state)

abbrev pub older_worker : Worker → Option Worker → Worker
older_worker w none = w
older_worker w (some v) = if leb w.created_at v.created_at then w else v

-- `ORDER BY created_at LIMIT 1`.
unfoldable pub oldest_worker : List Worker → Option Worker
oldest_worker [] = none
oldest_worker (w ∷ ws) = some (older_worker w (oldest_worker ws))

abbrev pub found_worker : Option Worker → Db → Result Worker × Db
found_worker none db = (err not_found, db)
found_worker (some w) db = (ok w, db)

unfoldable pub select_free : M Worker
select_free = query λ db. found_worker (oldest_worker (keep is_free db.workers)) db

-- The row after `claimBind`, and the row that is handed back, which keeps its URL where none is given.
abbrev pub bound : WorkerClaim → Worker → Worker
bound c w = record w {
  container_id = some c.container_id;
  novnc_service = nil_if_empty c.novnc_url;
}

abbrev pub url_or : Option String → Option String → Option String
url_or none old = old
url_or (some url) old = some url

abbrev pub handed_back : WorkerClaim → Worker → Worker
handed_back c w = record w {
  container_id = some c.container_id;
  novnc_service = url_or (nil_if_empty c.novnc_url) w.novnc_service;
}

-- Another row has this container: the unique constraint.
abbrev pub is_other_owner : String → ℕ → Worker → Bool
is_other_owner name i w = not (w.id == i) && has_container name w

unfoldable pub claim_bind : WorkerClaim → ℕ → M (Unit {0})
unfolding update_where
claim_bind c i = query λ db.
    if any (is_other_owner c.container_id i) db.workers
    then (err driver, db)
    else (ok tt, record db { workers = update_where (has_worker_id i) (bound c) db.workers })

unfoldable pub commit : {A : Type 0} → A → M A
commit a = query λ db. (ok a, db)

unfoldable pub bind_row : WorkerClaim → Worker → M Worker
unfolding claim_bind commit
bind_row c w db = bind_result (claim_bind c w.id db) (λ u. commit (handed_back c w))

-- The row is unowned, or this container's already.
abbrev pub is_open_to : String → Option String → Bool
is_open_to name none = true
is_open_to name (some owner) =
    if is_blank_text owner then true else same_text (codes owner) (codes name)

unfoldable pub bind_if : Bool → WorkerClaim → Worker → M Worker
unfolding bind_row
bind_if false c w db = (err conflict, db)
bind_if true c w db = bind_row c w db

unfoldable pub claim_free : WorkerClaim → M Worker
unfolding select_free bind_row
claim_free c db = bind_result (select_free db) (bind_row c)

unfoldable pub after_id : WorkerClaim → Result Worker × Db → Result Worker × Db
unfolding bind_if claim_free
after_id c (ok w, db) = bind_if (is_open_to c.container_id w.container_id) c w db
after_id c (err not_found, db) = claim_free c db
after_id c (err e, db) = (err e, db)

unfoldable pub claim_named : Option ℕ → WorkerClaim → M Worker
unfolding after_id
claim_named none c db = claim_free c db
claim_named (some i) c db = after_id c (get_by_id i db)

unfoldable pub after_owned : Option ℕ → WorkerClaim → Result Worker × Db → Result Worker × Db
unfolding claim_named commit
after_owned i c (ok w, db) = commit w db
after_owned i c (err not_found, db) = claim_named i c db
after_owned i c (err e, db) = (err e, db)

-- A rollback leaves only the calls that were made.
unfoldable pub undo_on_error : {A : Type 0} → Db → Result A × Db → Result A × Db
undo_on_error before (ok a, db) = (ok a, db)
undo_on_error before (err e, db) = (err e, record before { faults = db.faults })

unfoldable pub claim : (String → Option ℕ) → WorkerClaim → M Worker
unfolding after_owned undo_on_error
claim row_id c = query λ db.
    undo_on_error db (after_owned (row_id c.container_id) c (get_by_container_id c.container_id db))
