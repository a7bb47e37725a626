-- ===== src/Examples/Datasets.antt =====
-- Ingestion on a dataset of one Threads row, read from one payload.
use jg_smm.Prelude.{◌≡◌, refl, [], ◌∷◌, none, some, count, length, arith}
use jg_smm.Prelude.Int.{pos}
use jg_smm.Domain.Status.{instagram, threads}
use jg_smm.Store.{Db}
use jg_smm.Domain.Datasets.{Decoders, ThreadsPost, Window, nothing}
use jg_smm.Ingesting.{IngestPorts, ingest_run}
use jg_smm.Ingesting.Samples.{shows, ingest_run-samples}
use jg_smm.Ingesting.Keys.{UniqueContent, ingest_run-UniqueContent}
use jg_smm.Ingesting.Counters.{Counts, ingest_run-Counts}
use jg_smm.Ingesting.Replay.{ingest_run-replay}
use jg_smm.Examples.{sample_db, no_content}

abbrev sample_row : ThreadsPost
sample_row = record {
  post_code = "Cxyz";
  username = "ana";
  user_id = nothing;
  text = "hello";
  media_urls = [];
  created_at = "";
  like_count = some (pos 5);
  reply_count = none;
  repost_count = none;
  quote_count = some (pos 2);
  share_count = none;
  view_count = some (pos 100);
  error = "";
}

abbrev sample_decoders : Decoders
sample_decoders = record {
  legacy = λ raw. none;
  probe = λ raw. none;
  ig_post = λ raw. none;
  ig_search = λ raw. none;
  ig_search_post = λ raw. none;
  threads_post = λ raw. some sample_row;
  trim = λ s. s;
  parse_time = λ s. none;
  format_int = λ n. "0";
  scan_float = λ s. none;
}

abbrev pub sample_storage : IngestPorts
sample_storage = record {
  decoders = sample_decoders;
  read = some (λ key. some (123 ∷ []));
  new_id = λ db. 9;
  parse_id = λ s. 0;
  marshal = λ m. some "{}";
}

abbrev pub no_window : Window
no_window = record { from = none; to = none }

abbrev stored_db : Db
stored_db = record sample_db {
  content = record no_content { payloads = record { apify_run_id = 1; s3_key = "k" } ∷ [] };
}

ingest_run-samples_example :
    (count shows
        (ingest_run sample_storage (some instagram) no_window 1 stored_db).1.content.snapshots
      ≡ 0)
    × (count shows
          (ingest_run sample_storage (some threads) no_window 1 stored_db).1.content.snapshots
        ≡ 0)
ingest_run-samples_example = ingest_run-samples sample_storage no_window 1 stored_db

ingest_run-UniqueContent_example :
    UniqueContent (ingest_run sample_storage (some threads) no_window 1 stored_db).1.content
ingest_run-UniqueContent_example =
    ingest_run-UniqueContent sample_storage (some threads) no_window 1 stored_db
      ((λ p e. omega arith), λ p e. omega arith)

ingest_run-Counts_example :
    Counts stored_db.content (ingest_run sample_storage (some threads) no_window 1 stored_db)
ingest_run-Counts_example = ingest_run-Counts sample_storage (some threads) no_window 1 stored_db

ingest_run-replay_example :
    length
      (ingest_run sample_storage
        (some threads)
        no_window
        1
        (ingest_run sample_storage (some threads) no_window 1 stored_db).1).1.content.posts
    ≡ length (ingest_run sample_storage (some threads) no_window 1 stored_db).1.content.posts
ingest_run-replay_example =
    ingest_run-replay sample_storage (some threads) no_window 1 stored_db refl

-- The row is stored, with a sample, although its numbers are not read.
one_post :
    length (ingest_run sample_storage (some threads) no_window 1 stored_db).1.content.posts ≡ 1
unfolding ingest_run
one_post = refl

one_sample :
    length (ingest_run sample_storage (some threads) no_window 1 stored_db).1.content.snapshots ≡ 1
unfolding ingest_run
one_sample = refl
