-- ===== src/Heartbeats/Claims.antt =====
-- apps/api/internal/service/job.go, `Claim`: a container that boots asks for its row. Left out are the
-- default names of the channels and the coordinates in the answer; `row_id` reads a UUID.
use jg_smm.Prelude.{ℕ, String, Bool, true, false, Option, none, some}
use jg_smm.Domain.Entities.{Worker}
use jg_smm.Store.{M, validation, worker_health, throw, pure, attempt, ◌>>=◌, ◌>>◌, publish}
use jg_smm.Store.Accounts.{list_by_worker}
use jg_smm.Store.Workers.Claiming.{WorkerClaim, claim, is_blank_text}

-- `WorkerClaimResult`.
pub record WorkerClaimResult : Type 0 where
  pub worker_id : ℕ
  pub name : String
  pub region : String
  pub location : String

abbrev pub text_or_empty : Option String → String
text_or_empty none = ""
text_or_empty (some s) = s

abbrev pub result_of : Worker → WorkerClaimResult
result_of w = record {
  worker_id = w.id;
  name = w.name;
  region = w.region;
  location = text_or_empty w.location;
}

-- The listing of the accounts is for the frame only; its error is logged.
unfoldable pub announce_claim : Worker → M WorkerClaimResult
unfolding publish
announce_claim w =
    attempt (list_by_worker w.id) λ r. publish (worker_health w.id) >> pure (result_of w)

unfoldable pub claim_if : (String → Option ℕ) → Bool → WorkerClaim → M WorkerClaimResult
unfolding announce_claim
claim_if row_id true c = throw validation
claim_if row_id false c = claim row_id c >>= announce_claim

unfoldable pub claim_worker : (String → Option ℕ) → WorkerClaim → M WorkerClaimResult
unfolding claim_if
claim_worker row_id c = claim_if row_id (is_blank_text c.container_id) c
