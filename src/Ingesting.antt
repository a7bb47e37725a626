-- ===== src/Ingesting.antt =====
-- apps/api/internal/service/scrape_ingestor.go, IngestRun: the raw rows of a run become rows of posts,
-- comments and samples. The object storage, the decoders and the marshalling of metrics are functions.
-- An error of one payload or one item is only logged, so what handles it returns the counters.
pub mod Rule
pub mod Samples
pub mod Keys
pub mod Counters
pub mod Settled
pub mod Items
pub mod Payloads
pub mod Replay
use jg_smm.Prelude.{
  ℕ, suc, ◌+◌, Bool, true, false, not, ◌||◌, if◌then◌else◌, List, [], ◌∷◌, ◌++◌, Option, none, some,
  String, length,
}
use jg_smm.Prelude.Int.{ℤ}
use jg_smm.Domain.Status.{Platform}
use jg_smm.Domain.Content.{Post, Comment, MetricSnapshot}
use jg_smm.Store.{Db, M, Result, ok, err, driver, pure, bind_result, ◌>>=◌}
use jg_smm.Store.Posts.{
  upsert_post, upsert_comment, create_metric_snapshot, get_post_by_external_id, list_raw_payloads,
}
use jg_smm.Users.{is_empty}
use jg_smm.Domain.Datasets.{Value, Metrics, ScrapeItem, Window, Decoders}
use jg_smm.Parsing.{or_default, parse_items, metrics_int, metrics_int_ptr}

-- `port.ScrapeIngestResult`.
pub record IngestResult : Type 0 where
  pub posts_upserted : ℕ
  pub comments_upserted : ℕ
  pub snapshots_written : ℕ
  pub bytes_ingested : ℕ
  pub post_ids : List ℕ

abbrev pub no_result : IngestResult
no_result = record {
  posts_upserted = 0;
  comments_upserted = 0;
  snapshots_written = 0;
  bytes_ingested = 0;
  post_ids = [];
}

-- The object storage, the ids that the database gives, the reading of an id, and json.Marshal.
pub record IngestPorts : Type 0 where
  pub decoders : Decoders
  pub read : Option (String → Option (List ℕ))
  pub new_id : Db → ℕ
  pub parse_id : String → ℕ
  pub marshal : Metrics → Option String

abbrev pub null_if_empty : String → Option String
null_if_empty s = if is_empty s then none else some s

abbrev pub or_braces : Option String → String
or_braces none = "{}"
or_braces (some b) = b

abbrev pub with_post : Post → IngestResult → IngestResult
with_post p res = record res {
  posts_upserted = suc res.posts_upserted;
  post_ids = res.post_ids ++ (p.id ∷ []);
}

abbrev pub with_comment : IngestResult → IngestResult
with_comment res = record res { comments_upserted = suc res.comments_upserted }

abbrev pub with_snapshot : IngestResult → IngestResult
with_snapshot res = record res { snapshots_written = suc res.snapshots_written }

abbrev pub with_bytes : List ℕ → IngestResult → IngestResult
with_bytes raw res = record res { bytes_ingested = res.bytes_ingested + length raw }

module _ (ports : IngestPorts) where
  open ports use {decoders, read, new_id, parse_id, marshal}

  -- `metricsJSON`.
  abbrev pub metrics_json : Metrics → String
  metrics_json [] = "{}"
  metrics_json (kv ∷ m) = or_braces (marshal (kv ∷ m))

  abbrev pub post_of : Platform → ScrapeItem → Post
  post_of platform item = record {
    id = 0;
    platform = platform;
    external_id = item.external_id;
    author_handle = or_default item.author_handle "unknown";
    author_id = or_default item.author_id item.external_id;
    text = null_if_empty item.text;
    media_urls = item.media_urls;
    metrics = metrics_json item.metrics;
    scraped_at = 0;
    author_account_id = none;
  }

  abbrev pub sample_of : ℕ → ℕ → Metrics → MetricSnapshot
  sample_of post now m = record {
    post_id = post;
    ts = now;
    views = metrics_int decoders m ("views" ∷ ("viewCount" ∷ ("playCount" ∷ [])));
    likes = metrics_int decoders m ("likes" ∷ ("likeCount" ∷ []));
    comments = metrics_int decoders m ("comments" ∷ ("commentCount" ∷ []));
    shares = metrics_int decoders m ("shares" ∷ ("shareCount" ∷ ("retweetCount" ∷ [])));
    reach = metrics_int_ptr decoders m ("reach" ∷ ("impressions" ∷ []));
    reels_views = none;
  }

  abbrev pub after_sample : IngestResult → Result (Unit {0}) × Db → IngestResult × Db
  after_sample res (ok u, db) = (with_snapshot res, db)
  after_sample res (err e, db) = (res, db)

  abbrev pub after_post : ScrapeItem → IngestResult → Result Post × Db → IngestResult × Db
  after_post item res (ok p, db) =
      after_sample (with_post p res)
        (create_metric_snapshot (sample_of p.id db.now item.metrics) db)
  after_post item res (err e, db) = (res, db)

  -- `ingestPost`.
  unfoldable pub ingest_post : Platform → ScrapeItem → IngestResult → Db → IngestResult × Db
  unfolding upsert_post create_metric_snapshot metrics_int metrics_int_ptr
  ingest_post platform item res db =
      after_post item res (upsert_post new_id (post_of platform item) db)

  abbrev pub comment_of : Platform → ScrapeItem → ℕ → Comment
  comment_of platform item post = record {
    id = 0;
    post_id = post;
    platform = platform;
    external_id = item.external_id;
    author_handle = or_default item.author_handle "unknown";
    text = or_default item.text "";
    metrics = metrics_json item.metrics;
    scraped_at = 0;
    parent_id = none;
  }

  abbrev pub id_of : Post → M ℕ
  id_of p = pure p.id

  -- The post of a comment: the id that the item carries, or the post under the id that it names.
  abbrev pub parent_of : Platform → ScrapeItem → M ℕ
  parent_of platform item =
      if is_empty item.post_id
      then get_post_by_external_id platform item.comment_of >>= id_of
      else pure (parse_id item.post_id)

  abbrev pub after_comment : IngestResult → Result Comment × Db → IngestResult × Db
  after_comment res (ok c, db) = (with_comment res, db)
  after_comment res (err e, db) = (res, db)

  -- `ingestComment`.
  unfoldable pub ingest_comment : Platform → ScrapeItem → IngestResult → Db → IngestResult × Db
  unfolding upsert_comment get_post_by_external_id
  ingest_comment platform item res db = after_comment res (
      (parent_of platform item >>= (λ post. upsert_comment new_id (comment_of platform item post)))
        db)

  abbrev pub is_comment : ScrapeItem → Bool
  is_comment item = not (is_empty item.post_id) || not (is_empty item.comment_of)

  abbrev pub ingest_known : Option Platform → ScrapeItem → IngestResult → Db → IngestResult × Db
  ingest_known none item res db = (res, db)
  ingest_known (some p) item res db =
      if is_empty item.external_id
      then (res, db)
      else if is_comment item
      then ingest_comment p item res db
      else ingest_post p item res db

  -- `ingestItem`.
  unfoldable pub ingest_item : ScrapeItem → IngestResult → Db → IngestResult × Db
  unfolding ingest_post ingest_comment
  ingest_item item res db = ingest_known item.platform item res db

  unfoldable pub ingest_items : List ScrapeItem → IngestResult × Db → IngestResult × Db
  unfolding ingest_item
  ingest_items [] x = x
  ingest_items (item ∷ items) (res, db) = ingest_items items (ingest_item item res db)

  abbrev pub ingest_parsed : Option (List ScrapeItem) → IngestResult × Db → IngestResult × Db
  ingest_parsed none x = x
  ingest_parsed (some items) x = ingest_items items x

  abbrev pub ingest_raw :
      Option Platform → Window → Option (List ℕ) → IngestResult × Db → IngestResult × Db
  ingest_raw platform w none x = x
  ingest_raw platform w (some raw) (res, db) =
      ingest_parsed (parse_items decoders platform raw w) (with_bytes raw res, db)

  unfoldable pub ingest_keys :
      Option Platform
      → Window
      → (String → Option (List ℕ))
      → List String
      → IngestResult × Db
      → IngestResult × Db
  unfolding parse_items ingest_items
  ingest_keys platform w get [] x = x
  ingest_keys platform w get (k ∷ ks) x =
      ingest_keys platform w get ks (ingest_raw platform w (get k) x)

  abbrev pub answer : IngestResult × Db → Result IngestResult × Db
  answer (res, db) = (ok res, db)

  -- `IngestRun`, whose context is not cancelled.
  unfoldable pub ingest_run : Option Platform → Window → ℕ → M IngestResult
  unfolding list_raw_payloads ingest_keys
  ingest_run platform w run db = elim read [
    | none ↦ (err driver, db)
    | some get ↦
        bind_result (list_raw_payloads run db)
          (λ keys db'. answer (ingest_keys platform w get keys (no_result, db')))
  ]
