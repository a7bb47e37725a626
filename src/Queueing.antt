-- ===== src/Queueing.antt =====
-- apps/api/internal/service/action.go: queueing actions for accounts, and the rollup of a batch. `trim`
-- is TrimSpace and `parse` url.Parse of Go's library; the text store and the batch store may be
-- absent, and of a batch only the ids of its jobs are kept. The length of a text is that of its bytes
-- in UTF-8.
pub mod Batches
pub mod Rollup
use jg_smm.Prelude.{
  ℕ, zero, suc, ◌==◌, ltb, ◌&&◌, ◌||◌, not, Bool, true, false, if◌then◌else◌, List, [], ◌∷◌, ◌++◌,
  Option, none, some, String, length, map,
}
use jg_smm.Prelude.Text.{codes, byte_length}
use jg_smm.Domain.Status.{
  Platform, JobType, action_comment, action_reply_comment, is_action, JobStatus,
}
use jg_smm.Domain.Entities.{Account, ActionJob, Target, is_packable}
use jg_smm.Store.{
  Db, M, Err, Result, ok, err, not_found, validation, throw, pure, bind_result, attempt,
  handle_result, ◌>>=◌,
}
use jg_smm.Store.Accounts.{get_by_id}
use jg_smm.Store.Workers.{same_text}
use jg_smm.Store.Jobs.{get_action_job}
use jg_smm.Store.Queued.{upsert_target, create_action_job, put_text, create_batch}

pub record ActionItem : Type 0 where
  pub account_id : ℕ
  pub target_url : String
  pub type : JobType
  pub text : String

pub record Url : Type 0 where
  pub scheme : String
  pub host : String
  pub whole : String

pub record Tools : Type 0 where
  pub trim : String → String
  pub parse : String → Option Url
  pub new_target_id : Db → ℕ
  pub new_job_id : Db → ℕ
  pub keeps_texts : Bool
  pub keeps_batches : Bool

abbrev pub max_action_batch : ℕ
max_action_batch = 50

abbrev pub max_comment_text_len : ℕ
max_comment_text_len = 2_200

abbrev pub is_empty_text : String → Bool
is_empty_text String.[] = true
is_empty_text (String.◌∷◌ c s) = false

abbrev pub is_web : Url → Bool
is_web u =
    (same_text (codes u.scheme) (codes "http") || same_text (codes u.scheme) (codes "https"))
    && not (is_empty_text u.host)

abbrev pub web_url : Option Url → Result Url
web_url none = err validation
web_url (some u) = if is_web u then ok u else err validation

abbrev pub takes_text : JobType → Bool
takes_text action_comment = true
takes_text action_reply_comment = true
takes_text _ = false

abbrev pub worker_or_none : Option ℕ → ℕ
worker_or_none none = 0
worker_or_none (some w) = w

-- A job that is to be created, with the comment that is to be kept for it.
abbrev pub Planned : Type 0
Planned = ActionJob × Option String

module _ (tools : Tools) where
  open tools use {trim, parse, new_target_id, new_job_id, keeps_texts, keeps_batches}

  -- `safeTargetURL`.
  unfoldable pub safe_target_url : String → Result Url
  safe_target_url raw =
      if is_empty_text (trim raw) then err validation else web_url (parse (trim raw))

  -- The comment of an item: none where it is blank.
  unfoldable pub checked_text : JobType → String → Result (Option String)
  unfolding byte_length
  checked_text type text =
      if is_empty_text text
      then ok none
      else if ltb max_comment_text_len (byte_length (codes text))
      then err validation
      else if not (takes_text type)
      then err validation
      else if keeps_texts
      then ok (some text)
      else err validation

  abbrev pub new_target : Account → Url → Target
  new_target acc u = record {
    id = 0;
    platform = acc.platform;
    external_id = u.whole;
    url = u.whole;
    post_id = none;
    comment_id = none;
    created_at = 0;
  }

  abbrev pub planned : ActionItem → Account → ℕ → Target → ActionJob
  planned item acc now t = record {
    id = 0;
    type = item.type;
    target_id = t.id;
    account_id = acc.id;
    worker_id = worker_or_none acc.worker_id;
    template_id = 0;
    status = JobStatus.pending;
    scheduled_at = now;
    started_at = none;
    finished_at = none;
    attempts = 0;
    error = none;
    created_at = 0;
  }

  unfoldable pub plan_for : ActionItem → Url → Option String → Account → M Planned
  plan_for item u text acc db =
      if not (is_packable acc)
      then (err validation, db)
      else bind_result (upsert_target new_target_id (new_target acc u) db)
          (λ t db'. (ok (planned item acc db'.now t, text), db'))

  -- One turn of the loop over the items.
  unfoldable pub plan_item : ActionItem → M Planned
  unfolding safe_target_url checked_text plan_for
  plan_item item =
      (λ db. (if is_action item.type then ok tt else err validation, db)) >>= λ known db.
      bind_result (safe_target_url item.target_url, db)
        (λ u db.
          bind_result (checked_text item.type (trim item.text), db)
            (λ text db. bind_result (get_by_id item.account_id db) (plan_for item u text)))

  unfoldable pub plan_each : List ActionItem → M (List Planned)
  unfolding plan_item
  plan_each [] db = (ok [], db)
  plan_each (item ∷ rest) db =
      bind_result (plan_item item db)
        (λ p db. bind_result (plan_each rest db) (λ ps db. (ok (p ∷ ps), db)))

  -- The error of the text store is logged.
  unfoldable pub keep_text : Option String → ActionJob → Db → Db
  keep_text none j db = db
  keep_text (some text) j db = (put_text j.id text db).1

  unfoldable pub create_one : Planned → M ActionJob
  unfolding keep_text
  create_one p db =
      bind_result (create_action_job new_job_id p.0 db) (λ j db. (ok j, keep_text p.1 j db))

  unfoldable pub create_each : List Planned → M (List ActionJob)
  unfolding create_one
  create_each [] db = (ok [], db)
  create_each (p ∷ ps) db =
      bind_result (create_one p db)
        (λ j db. bind_result (create_each ps db) (λ js db. (ok (j ∷ js), db)))

  abbrev pub job_ids : List ActionJob → List ℕ
  job_ids [] = []
  job_ids (j ∷ js) = j.id ∷ job_ids js

  -- The error of the batch store is logged.
  unfoldable pub keep_batch : Bool → List ActionJob → Db → Db
  keep_batch false js db = db
  keep_batch true [] db = db
  keep_batch true (j ∷ js) db = (create_batch (job_ids (j ∷ js)) db).1

  unfoldable pub create_planned : List Planned → M (List ActionJob)
  unfolding create_each keep_batch
  create_planned ps db =
      bind_result (create_each ps db) (λ js db. (ok js, keep_batch keeps_batches js db))

  abbrev pub is_bad_size : ℕ → Bool
  is_bad_size n = if n == 0 then true else ltb max_action_batch n

  unfoldable pub enqueue_sized : Bool → List ActionItem → M (List ActionJob)
  unfolding plan_each create_planned
  enqueue_sized true items db = (err validation, db)
  enqueue_sized false items db = bind_result (plan_each items db) create_planned

  -- `Enqueue`.
  unfoldable pub enqueue : List ActionItem → M (List ActionJob)
  unfolding enqueue_sized
  enqueue items = enqueue_sized (is_bad_size (length items)) items
