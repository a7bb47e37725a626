-- ===== src/Domain/Content.antt =====
-- apps/api/internal/domain/scrape.go and keyword.go: what the scrapers store. Times are numbers, ids
-- are numbers, and a jsonb column is the text that is written to it.
use jg_smm.Prelude.{ℕ, String, List, Option, Bool, true, false}
use jg_smm.Prelude.Int.{ℤ}
use jg_smm.Domain.Status.{Platform}

pub record Post : Type 0 where
  pub id : ℕ
  pub platform : Platform
  pub external_id : String
  pub author_handle : String
  pub author_id : String
  pub text : Option String
  pub media_urls : List String
  pub metrics : String
  pub scraped_at : ℕ
  pub author_account_id : Option ℕ

pub record Comment : Type 0 where
  pub id : ℕ
  pub post_id : ℕ
  pub platform : Platform
  pub external_id : String
  pub author_handle : String
  pub text : String
  pub metrics : String
  pub scraped_at : ℕ
  pub parent_id : Option ℕ

pub record MetricSnapshot : Type 0 where
  pub post_id : ℕ
  pub ts : ℕ
  pub views : ℤ
  pub likes : ℤ
  pub comments : ℤ
  pub shares : ℤ
  pub reach : Option ℤ
  pub reels_views : Option ℤ

pub record ApifyRun : Type 0 where
  pub id : ℕ
  pub scrape_job_id : Option ℕ
  pub actor_id : String
  pub run_id : String
  pub status : String
  pub started_at : ℕ
  pub finished_at : Option ℕ

pub record RawPayload : Type 0 where
  pub apify_run_id : ℕ
  pub s3_key : String

pub data KeywordStatus : Type 0 where
  pending running succeeded failed : KeywordStatus

abbrev pub is_terminal : KeywordStatus → Bool
is_terminal succeeded = true
is_terminal failed = true
is_terminal _ = false

pub record KeywordBatch : Type 0 where
  pub id : ℕ
  pub platform : Platform
  pub keywords : List String
  pub window_from : Option ℕ
  pub window_to : Option ℕ
  pub max_posts : ℕ
  pub actor_id : String
  pub status : KeywordStatus
  pub apify_run_id : Option ℕ
  pub items_read : ℕ
  pub posts_count : ℕ
  pub comments_count : ℕ
  pub error : Option String
  pub created_by : Option ℕ
  pub created_at : ℕ
  pub finished_at : Option ℕ

-- The tables of the scraped content. `batch_posts` is the join of keyword batches and posts.
pub record Content : Type 0 where
  pub posts : List Post
  pub comments : List Comment
  pub snapshots : List MetricSnapshot
  pub runs : List ApifyRun
  pub payloads : List RawPayload
  pub keyword_batches : List KeywordBatch
  pub batch_posts : List (ℕ × ℕ)
