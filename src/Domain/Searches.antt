-- ===== src/Domain/Searches.antt =====
-- The request of a keyword search, KeywordScrapeInput of apps/api/internal/service/scrape_keyword.go,
-- and what the runner is asked and answers, of apps/api/internal/port/provider.go.
use jg_smm.Prelude.{ℕ, List, Option, String}
use jg_smm.Domain.Status.{Platform}
use jg_smm.Domain.Datasets.{Window}

-- `KeywordScrapeInput`.
pub record KeywordInput : Type 0 where
  pub platform : Platform
  pub keywords : List String
  pub window : Window
  pub max_posts : ℕ
  pub created_by : Option ℕ

-- `port.ApifySearchInput` and `port.ApifyOutput`.
pub record SearchInput : Type 0 where
  pub run_id : ℕ
  pub actor_id : String
  pub platform : Platform
  pub keywords : List String
  pub window : Window
  pub max_posts : ℕ

pub record SearchOutput : Type 0 where
  pub run_id : String
  pub status : String
  pub item_keys : List String
  pub error : String
