-- ===== src/Examples/Searches.antt =====
-- A keyword search whose actor answers with the one Threads row, and one whose actor fails.
use jg_smm.Prelude.{◌≡◌, refl, true, [], ◌∷◌, none, find, arith}
use jg_smm.Domain.Status.{threads}
use jg_smm.Domain.Content.{KeywordBatch, pending}
use jg_smm.Store.{Db, ok, is_ok}
use jg_smm.Store.Keywords.{has_batch_id}
use jg_smm.Domain.Searches.{KeywordInput, SearchOutput}
use jg_smm.Searching.{SearchPorts, create_batch, process_batch}
use jg_smm.Searching.Steps.{batches_of}
use jg_smm.Searching.Ends.{IsEnded, process_batch-IsEnded, process_batch-others}
use jg_smm.Examples.{sample_db, no_content}
use jg_smm.Examples.Datasets.{sample_storage, no_window}

abbrev sample_output : SearchOutput
sample_output = record { run_id = "r"; status = "SUCCEEDED"; item_keys = "k" ∷ []; error = "" }

abbrev sample_search : SearchPorts
sample_search = record {
  ingest = sample_storage;
  search = λ input db. ok sample_output;
  has_runner = true;
  has_batches = true;
  actor_for = λ p. "actor";
  trim = λ s. s;
  to_lower = λ s. s;
  describe = λ s e. s;
  actor_failure = λ s e. s;
}

abbrev sample_request : KeywordInput
sample_request = record {
  platform = threads;
  keywords = "go" ∷ ("go" ∷ ("" ∷ []));
  window = no_window;
  max_posts = 0;
  created_by = none;
}

abbrev sample_batch : KeywordBatch
sample_batch = record {
  id = 3;
  platform = threads;
  keywords = "go" ∷ [];
  window_from = none;
  window_to = none;
  max_posts = 50;
  actor_id = "actor";
  status = pending;
  apify_run_id = none;
  items_read = 0;
  posts_count = 0;
  comments_count = 0;
  error = none;
  created_by = none;
  created_at = 1;
  finished_at = none;
}

abbrev batch_db : Db
batch_db = record sample_db { content = record no_content { keyword_batches = sample_batch ∷ [] } }

create_batch_runs : is_ok (create_batch sample_search sample_request batch_db).0 ≡ true
unfolding create_batch
create_batch_runs = refl

process_batch-IsEnded_example : IsEnded 3 (process_batch sample_search sample_batch batch_db)
process_batch-IsEnded_example = process_batch-IsEnded sample_search sample_batch batch_db refl refl

process_batch-others_example :
    find (has_batch_id 4) (batches_of (process_batch sample_search sample_batch batch_db)) ≡ none
process_batch-others_example =
    process_batch-others sample_search sample_batch 4 batch_db (λ e. ground (arith, e))
