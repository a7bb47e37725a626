-- ===== src/Searching.antt =====
-- apps/api/internal/service/scrape_keyword.go: CreateBatch, and processBatch, which it starts in the
-- background. The search of the runner, TrimSpace, ToLower and the texts of errors are functions; the
-- platform of a request is one of the domain's, and the empty text of an actor is that of no actor.
pub mod Steps
pub mod Lifecycle
pub mod Ends
pub mod Cleaning
use jg_smm.Prelude.{
  ℕ, zero, suc, ltb, ◌==◌, ◌||◌, Bool, true, false, not, if◌then◌else◌, List, [], ◌∷◌, Option, none,
  some, String, any, length,
}
use jg_smm.Prelude.Text.{codes}
use jg_smm.Domain.Status.{Platform, instagram, threads}
use jg_smm.Domain.Content.{
  KeywordBatch, KeywordStatus, pending, running, succeeded, failed, ApifyRun,
}
use jg_smm.Domain.Searches.{KeywordInput, SearchInput, SearchOutput}
use jg_smm.Store.{
  Db, M, Err, Result, ok, err, validation, unavailable, throw, bind_result, handle_result, ◌>>=◌,
}
use jg_smm.Store.Workers.{same_text}
use jg_smm.Store.Posts.{create_apify_run, update_apify_run, create_raw_payload}
use jg_smm.Store.Keywords.{
  create_keyword_batch, get_keyword_batch, update_keyword_batch, create_keyword_batch_post,
}
use jg_smm.Users.{is_empty}
use jg_smm.Domain.Datasets.{Window}
use jg_smm.Ingesting.{IngestPorts, IngestResult, no_result, ingest_run}

abbrev pub max_keywords : ℕ
max_keywords = 5

abbrev pub search_attempts : ℕ
search_attempts = 2

pub record SearchPorts : Type 0 where
  pub ingest : IngestPorts
  pub search : SearchInput → Db → Result SearchOutput
  pub has_runner : Bool
  pub has_batches : Bool
  pub actor_for : Platform → String
  pub trim : String → String
  pub to_lower : String → String
  pub describe : String → Err → String
  pub actor_failure : String → String → String

-- The outcome of one run of the actor, with the text of its error.
pub data RunEnd : Type 0 where
  done : IngestResult → RunEnd
  broken : String → RunEnd

abbrev pub is_searchable : Platform → Bool
is_searchable instagram = true
is_searchable threads = true
is_searchable _ = false

abbrev pub clamp_posts : ℕ → ℕ
clamp_posts n = if n == 0 then 50 else if ltb 200 n then 200 else n

-- The row with a status, which the store merges into the batch.
abbrev pub batch_change : ℕ → KeywordStatus → KeywordBatch
batch_change i status = record {
  id = i;
  platform = instagram;
  keywords = [];
  window_from = none;
  window_to = none;
  max_posts = 0;
  actor_id = "";
  status = status;
  apify_run_id = none;
  items_read = 0;
  posts_count = 0;
  comments_count = 0;
  error = none;
  created_by = none;
  created_at = 0;
  finished_at = none;
}

module _ (ports : SearchPorts) where
  open ports use {
    ingest, search, has_runner, has_batches, actor_for, trim, to_lower, describe, actor_failure,
  }

  -- Whether the two keywords are one, whatever the case of their letters.
  abbrev pub same_keyword : String → String → Bool
  same_keyword a b = same_text (codes (to_lower b)) (codes (to_lower a))

  -- The keywords that are kept: trimmed, not empty, and none that is there already.
  unfoldable pub clean_from : List String → List String → List String
  clean_from seen [] = []
  clean_from seen (k ∷ ks) =
      let dropped = clean_from seen ks in
      let kept = trim k ∷ clean_from (trim k ∷ seen) ks in
      if is_empty (trim k)
      then dropped
      else if any (same_keyword (trim k)) seen
      then dropped
      else kept

  abbrev pub request_of : KeywordInput → List String → String → KeywordBatch
  request_of input cleaned actor = record {
    id = 0;
    platform = input.platform;
    keywords = cleaned;
    window_from = input.window.from;
    window_to = input.window.to;
    max_posts = clamp_posts input.max_posts;
    actor_id = actor;
    status = pending;
    apify_run_id = none;
    items_read = 0;
    posts_count = 0;
    comments_count = 0;
    error = none;
    created_by = input.created_by;
    created_at = 0;
    finished_at = none;
  }

  abbrev pub create_cleaned : KeywordInput → List String → M KeywordBatch
  create_cleaned input cleaned =
      if length cleaned == 0
      then throw validation
      else if ltb max_keywords (length cleaned)
      then throw validation
      else if not has_runner
      then throw unavailable
      else if not has_batches
      then throw unavailable
      else if is_empty (actor_for input.platform)
      then throw validation
      else create_keyword_batch ingest.new_id (request_of input cleaned (actor_for input.platform))

  -- `CreateBatch`, up to the start of the processing.
  unfoldable pub create_batch : KeywordInput → M KeywordBatch
  unfolding create_keyword_batch clean_from
  create_batch input =
      if is_searchable input.platform
      then create_cleaned input (clean_from [] input.keywords)
      else throw validation

  -- A statement whose error is only logged.
  abbrev pub update_quietly : KeywordBatch → Db → Db
  update_quietly b db = (update_keyword_batch b db).1

  abbrev pub failure_of : ℕ → String → ℕ → KeywordBatch
  failure_of i msg now = record (batch_change i failed) { error = some msg; finished_at = some now }

  -- `failBatch`.
  unfoldable pub fail_batch : ℕ → String → Db → Db
  unfolding update_keyword_batch
  fail_batch i msg db = update_quietly (failure_of i msg db.now) db

  unfoldable pub point_all : ℕ → List String → Db → Db
  unfolding create_raw_payload
  point_all run [] db = db
  point_all run (key ∷ keys) db = point_all run keys (create_raw_payload run key db).1

  abbrev pub stamp_of : ℕ → SearchOutput → ApifyRun
  stamp_of run out = record {
    id = run;
    scrape_job_id = none;
    actor_id = "";
    run_id = out.run_id;
    status = out.status;
    started_at = 0;
    finished_at = none;
  }

  abbrev pub after_ingest : Result IngestResult × Db → RunEnd × Db
  after_ingest (ok res, db) = (done res, db)
  after_ingest (err e, db) = (broken (describe "ingest" e), db)

  abbrev pub ingest_found : SearchInput → SearchOutput → Db → RunEnd × Db
  ingest_found input out db = after_ingest (
      ingest_run ingest (some input.platform) input.window input.run_id (
        point_all input.run_id out.item_keys
          (update_apify_run (stamp_of input.run_id out) true db).1))

  abbrev pub after_search : SearchInput → Result SearchOutput → Db → RunEnd × Db
  after_search input (err e) db = (broken (describe "run" e), db)
  after_search input (ok out) db =
      if same_text (codes out.status) (codes "SUCCEEDED")
      then ingest_found input out db
      else (broken (actor_failure out.status out.error), db)

  -- `runOnce`.
  unfoldable pub search_once : SearchInput → Db → RunEnd × Db
  unfolding point_all update_apify_run ingest_run
  search_once input db = after_search input (search input db) db

  unfoldable pub join_all : ℕ → List ℕ → Db → Db
  unfolding create_keyword_batch_post
  join_all i [] db = db
  join_all i (p ∷ ps) db = join_all i ps (create_keyword_batch_post i p db).1

  abbrev pub success_of : ℕ → ℕ → IngestResult → ℕ → KeywordBatch
  success_of i run res now = record (batch_change i succeeded) {
    apify_run_id = some run;
    items_read = res.posts_upserted;
    posts_count = res.posts_upserted;
    comments_count = res.comments_upserted;
    finished_at = some now;
  }

  -- The joins of a finished search, and its success.
  unfoldable pub finish_batch : ℕ → ℕ → IngestResult → Db → Db
  unfolding join_all update_keyword_batch
  finish_batch i run res db =
      let db' = join_all i res.post_ids db in update_quietly (success_of i run res db'.now) db'

  abbrev pub open_run : String → ApifyRun
  open_run actor = record {
    id = 0;
    scrape_job_id = none;
    actor_id = actor;
    run_id = "";
    status = "RUNNING";
    started_at = 0;
    finished_at = none;
  }

  abbrev pub input_of : KeywordBatch → ℕ → SearchInput
  input_of b run = record {
    run_id = run;
    actor_id = b.actor_id;
    platform = b.platform;
    keywords = b.keywords;
    window = record { from = b.window_from; to = b.window_to };
    max_posts = b.max_posts;
  }

  -- The end of a try: a failure, a success, or the next try for an empty answer that is not the last.
  abbrev pub after_try : KeywordBatch → ℕ → Bool → (Db → Db) → RunEnd × Db → Db
  after_try b run last next (broken msg, db) = fail_batch b.id msg db
  after_try b run last next (done res, db) =
      if ltb 0 res.posts_upserted || last then finish_batch b.id run res db else next db

  abbrev pub after_open : KeywordBatch → Bool → (Db → Db) → Result ApifyRun × Db → Db
  after_open b last next (err e, db) = fail_batch b.id (describe "create run" e) db
  after_open b last next (ok run, db) = after_try b run.id last next (
      search_once (input_of b run.id)
        (update_quietly (record (batch_change b.id running) { apify_run_id = some run.id }) db))

  -- The loop over the attempts, by the number that is left.
  unfoldable pub try_search : ℕ → KeywordBatch → Db → Db
  unfolding create_apify_run fail_batch finish_batch search_once update_keyword_batch
  try_search zero b db = db
  try_search (suc left) b db =
      after_open b (left == 0) (try_search left b)
        (create_apify_run ingest.new_id (open_run b.actor_id) db)

  abbrev pub after_fetch : KeywordBatch → Result KeywordBatch × Db → Db
  after_fetch b (err e, db) = db
  after_fetch b (ok row, db) = try_search search_attempts b (
      update_quietly (batch_change b.id running)
        (update_quietly (record row { status = running }) db))

  -- `processBatch`, on the values that CreateBatch hands it, which are those of the batch that it
  -- created.
  unfoldable pub process_batch : KeywordBatch → Db → Db
  unfolding try_search get_keyword_batch update_keyword_batch
  process_batch b db = after_fetch b (get_keyword_batch b.id db)
