-- ===== src/Domain/Datasets.antt =====
-- apps/api/internal/service/scrape_ingestor.go: the rows of a dataset as the structs that the parsers
-- declare, the item that they make, and port.KeywordTimeWindow. A time is a number of nanoseconds since
-- 1970, and the zero time is `none`.
use jg_smm.Prelude.{ℕ, List, Option, String}
use jg_smm.Prelude.Int.{ℤ}
use jg_smm.Domain.Status.{Platform}

-- A Go `any`: nil, a pointer to an int64, a float64 (as int64 of it), an int64 or an int, a string, a
-- json.Number, or anything else.
pub data Value : Type 0 where
  nothing other : Value
  pointer : Option ℤ → Value
  float integer : ℤ → Value
  text number : String → Value

abbrev pub Metrics : Type 0
Metrics = List (String × Value)

-- `scrapeItem`. A platform that is no constant of the domain is `none`.
pub record ScrapeItem : Type 0 where
  pub platform : Option Platform
  pub external_id : String
  pub post_id : String
  pub comment_of : String
  pub author_handle : String
  pub author_id : String
  pub text : String
  pub media_urls : List String
  pub metrics : Metrics

pub record IgComment : Type 0 where
  pub id : String
  pub text : String
  pub owner_username : String
  pub likes_count : Option ℤ

pub record IgPost : Type 0 where
  pub id : String
  pub short_code : String
  pub owner_username : String
  pub owner_id : Value
  pub caption : String
  pub first_comment : String
  pub images : List String
  pub display_url : String
  pub likes_count : Option ℤ
  pub comments_count : Option ℤ
  pub video_view_count : Option ℤ
  pub timestamp : String
  pub latest_comments : List IgComment
  pub error : String

-- One entry of a carousel: the URLs of its image candidates and of its video versions.
pub record IgMedia : Type 0 where
  pub images : List String
  pub videos : List String

pub record IgSearchPost : Type 0 where
  pub code : String
  pub caption_text : String
  -- Seconds since 1970; a time before that is not represented.
  pub taken_at : ℕ
  pub like_count : Option ℤ
  pub comment_count : Option ℤ
  pub view_count : Option ℤ
  pub play_count : Option ℤ
  pub username : String
  pub user_pk : Value
  pub display_uri : String
  pub images : List String
  pub carousel_media : List IgMedia

pub record ThreadsPost : Type 0 where
  pub post_code : String
  pub username : String
  pub user_id : Value
  pub text : String
  pub media_urls : List String
  pub created_at : String
  pub like_count : Option ℤ
  pub reply_count : Option ℤ
  pub repost_count : Option ℤ
  pub quote_count : Option ℤ
  pub share_count : Option ℤ
  pub view_count : Option ℤ
  pub error : String

-- `port.KeywordTimeWindow`.
pub record Window : Type 0 where
  pub from : Option ℕ
  pub to : Option ℕ

-- What the parser takes from other packages; `none` is an error of Unmarshal. A raw row is its bytes.
pub record Decoders : Type 0 where
  pub legacy : List ℕ → Option ScrapeItem
  pub probe : List ℕ → Option (Option String × List ℕ)
  pub ig_post : List ℕ → Option IgPost
  pub ig_search : List ℕ → Option (List (List ℕ) × String)
  pub ig_search_post : List ℕ → Option IgSearchPost
  pub threads_post : List ℕ → Option ThreadsPost
  pub trim : String → String
  pub parse_time : String → Option ℕ
  pub format_int : ℤ → String
  pub scan_float : String → Option ℤ
