-- ===== src/Parsing.antt =====
-- apps/api/internal/service/scrape_ingestor.go, parseItems and what it calls: how a raw row of a
-- dataset becomes the items that are stored. The decoding of JSON into the fields that the code
-- declares is a set of functions, as are TrimSpace, the reading of times and numbers, and the printing
-- of a number. A time is a number of nanoseconds since 1970, and the zero time is `none`.
pub mod Counts
use jg_smm.Prelude.{
  ℕ, ◌*◌, ltb, ◌==◌, Bool, true, false, not, ◌&&◌, if◌then◌else◌, List, [], ◌∷◌, ◌++◌, Option, none,
  some, String,
}
use jg_smm.Prelude.Int.{ℤ, pos}
use jg_smm.Prelude.Text.{codes}
use jg_smm.Domain.Status.{Platform, instagram, threads}
use jg_smm.Domain.Datasets.{
  Value, nothing, pointer, float, integer, text, number, Metrics, ScrapeItem, IgComment, IgPost,
  IgMedia, IgSearchPost, ThreadsPost, Window, Decoders,
}
use jg_smm.Store.Workers.{same_text}
use jg_smm.Users.{is_empty}

abbrev pub or_default : String → String → String
or_default s d = if is_empty s then d else s

abbrev pub is_nil {ℓ} : {A : Type ℓ} → List A → Bool
is_nil [] = true
is_nil (x ∷ xs) = false

abbrev pub is_zero : Option ℕ → Bool
is_zero none = true
is_zero (some t) = false

abbrev pub is_from : Option ℕ → ℕ → Bool
is_from none t = true
is_from (some f) t = not (ltb t f)

abbrev pub is_until : Option ℕ → ℕ → Bool
is_until none t = true
is_until (some e) t = ltb t e

abbrev pub is_within : Window → Option ℕ → Bool
is_within w none = true
is_within w (some t) = is_from w.from t && is_until w.to t

-- `inWindow`.
unfoldable pub in_window : Option ℕ → Window → Bool
in_window t w = if is_zero w.from && is_zero w.to then true else is_within w t

-- `orInt`.
abbrev pub or_int : List (Option ℤ) → Option ℤ
or_int [] = none
or_int (none ∷ rest) = or_int rest
or_int (some n ∷ rest) = some n

abbrev pub with_views : Option ℤ → Metrics → Metrics
with_views none m = m
with_views (some n) m = m ++ (("views", pointer (some n)) ∷ [])

abbrev pub first_url : List String → List String
first_url [] = []
first_url (u ∷ us) = u ∷ []

abbrev pub carousel_urls : List IgMedia → List String
carousel_urls [] = []
carousel_urls (c ∷ cs) = first_url c.images ++ (first_url c.videos ++ carousel_urls cs)

-- The media of a post, or the one address that is shown for it.
abbrev pub media_or : List String → String → List String
media_or media url = if is_nil media && not (is_empty url) then url ∷ [] else media

abbrev pub prepend_if : Bool → ScrapeItem → List ScrapeItem → List ScrapeItem
prepend_if true item rest = item ∷ rest
prepend_if false item rest = rest

module _ (decoders : Decoders) where
  open decoders use {
    legacy, probe, ig_post, ig_search, ig_search_post, threads_post, trim, parse_time, format_int,
    scan_float,
  }

  -- `anyToString`.
  abbrev pub any_to_string : Value → String
  any_to_string (Value.text s) = s
  any_to_string (float n) = format_int n
  any_to_string (number s) = s
  any_to_string _ = ""

  -- `parseLegacyItem`.
  abbrev pub checked_legacy : Option ScrapeItem → Option ScrapeItem
  checked_legacy none = none
  checked_legacy (some item) = if is_empty item.external_id then none else some item

  abbrev pub comment_item : ScrapeItem → IgComment → ScrapeItem
  comment_item post c = record {
    platform = some instagram;
    external_id = c.id;
    post_id = "";
    comment_of = post.external_id;
    author_handle = or_default c.owner_username "unknown";
    author_id = "";
    text = c.text;
    media_urls = [];
    metrics = ("likes", pointer c.likes_count) ∷ [];
  }

  -- `parseIGComments`.
  abbrev pub parse_ig_comments : ScrapeItem → List IgComment → List ScrapeItem
  parse_ig_comments post [] = []
  parse_ig_comments post (c ∷ cs) =
      prepend_if (not (is_empty c.id) && not (is_empty (trim c.text))) (comment_item post c)
        (parse_ig_comments post cs)

  abbrev pub ig_post_item : String → IgPost → ScrapeItem
  ig_post_item id src = record {
    platform = some instagram;
    external_id = id;
    post_id = "";
    comment_of = "";
    author_handle = or_default src.owner_username "unknown";
    author_id = any_to_string src.owner_id;
    text = or_default src.caption src.first_comment;
    media_urls = media_or src.images src.display_url;
    metrics =
        with_views src.video_view_count
          (("likes", pointer src.likes_count) ∷ (("comments", pointer src.comments_count) ∷ []));
  }

  abbrev pub ig_post_items : String → IgPost → List ScrapeItem
  ig_post_items id src =
      ig_post_item id src ∷ parse_ig_comments (ig_post_item id src) src.latest_comments

  -- `parseIGPostItems`.
  abbrev pub parse_ig_post_row : Window → Option IgPost → Option (List ScrapeItem)
  parse_ig_post_row w none = none
  parse_ig_post_row w (some src) =
      let id = or_default src.short_code src.id in
      if not (is_empty src.error)
      then none
      else if is_empty id
      then none
      else if in_window (parse_time src.timestamp) w
      then some (ig_post_items id src)
      else some []

  abbrev pub search_views : IgSearchPost → Option ℤ
  search_views p = or_int (p.view_count ∷ (p.play_count ∷ []))

  abbrev pub search_media : IgSearchPost → List String
  search_media p =
      if is_nil p.carousel_media then first_url p.images else carousel_urls p.carousel_media

  abbrev pub ig_search_item : IgSearchPost → ScrapeItem
  ig_search_item p = record {
    platform = some instagram;
    external_id = p.code;
    post_id = "";
    comment_of = "";
    author_handle = or_default p.username "unknown";
    author_id = any_to_string p.user_pk;
    text = p.caption_text;
    media_urls = media_or (search_media p) p.display_uri;
    metrics =
        with_views (search_views p)
          (("likes", pointer p.like_count) ∷ (("comments", pointer p.comment_count) ∷ []));
  }

  -- `parseIGSearchPost`; `time.Unix` of a missing `taken_at`, which is 0, is not the zero time.
  abbrev pub parse_ig_search_post : Option IgSearchPost → Option (ScrapeItem × Option ℕ)
  parse_ig_search_post none = none
  parse_ig_search_post (some p) =
      if is_empty p.code then none else some (ig_search_item p, some (p.taken_at * 1_000_000_000))

  abbrev pub keep_in : Window → Option (ScrapeItem × Option ℕ) → List ScrapeItem → List ScrapeItem
  keep_in w none rest = rest
  keep_in w (some (item, t)) rest = prepend_if (in_window t w) item rest

  abbrev pub search_items : Window → List (List ℕ) → List ScrapeItem
  search_items w [] = []
  search_items w (p ∷ ps) = keep_in w (parse_ig_search_post (ig_search_post p)) (search_items w ps)

  -- `parseIGSearchItems`.
  abbrev pub parse_ig_search_row :
      Window → Option (List (List ℕ) × String) → Option (List ScrapeItem)
  parse_ig_search_row w none = none
  parse_ig_search_row w (some (posts, error)) =
      if is_empty error then some (search_items w posts) else none

  -- The byte `[`.
  abbrev pub is_array : List ℕ → Bool
  is_array [] = false
  is_array (b ∷ bs) = b == 91

  abbrev pub lacks_search : Option String → List ℕ → Bool
  lacks_search none posts = is_nil posts
  lacks_search (some term) posts = false

  -- `parseIGItems`.
  abbrev pub parse_ig_probed :
      List ℕ → Window → Option (Option String × List ℕ) → Option (List ScrapeItem)
  parse_ig_probed raw w none = none
  parse_ig_probed raw w (some (term, posts)) =
      if lacks_search term posts
      then parse_ig_post_row w (ig_post raw)
      else if is_array posts
      then parse_ig_search_row w (ig_search raw)
      else some []

  abbrev pub threads_item : ThreadsPost → ScrapeItem
  threads_item src = record {
    platform = some threads;
    external_id = src.post_code;
    post_id = "";
    comment_of = "";
    author_handle = or_default src.username "unknown";
    author_id = any_to_string src.user_id;
    text = src.text;
    media_urls = src.media_urls;
    metrics = with_views src.view_count (
        ("likes", pointer src.like_count)
        ∷ (("comments", pointer src.reply_count)
            ∷ ((
              "shares",
              pointer (or_int (src.share_count ∷ (src.repost_count ∷ (src.quote_count ∷ [])))),
            )
                ∷ [])));
  }

  -- `parseThreadsItem`, and the window on its answer.
  abbrev pub parse_threads_row : Window → Option ThreadsPost → Option (List ScrapeItem)
  parse_threads_row w none = none
  parse_threads_row w (some src) =
      if not (is_empty src.error)
      then none
      else if is_empty src.post_code
      then none
      else if in_window (parse_time src.created_at) w
      then some (threads_item src ∷ [])
      else some []

  abbrev pub one_item : Option ScrapeItem → Option (List ScrapeItem)
  one_item none = none
  one_item (some item) = some (item ∷ [])

  -- `parseItems`; no platform is the empty one.
  unfoldable pub parse_items : Option Platform → List ℕ → Window → Option (List ScrapeItem)
  unfolding in_window
  parse_items (some instagram) raw w = parse_ig_probed raw w (probe raw)
  parse_items (some threads) raw w = parse_threads_row w (threads_post raw)
  parse_items _ raw w = one_item (checked_legacy (legacy raw))

  -- `numeric`.
  abbrev pub numeric : Value → Option ℤ
  numeric (float n) = some n
  numeric (integer n) = some n
  numeric (Value.text s) = scan_float s
  numeric _ = none

  -- `i.Metrics[k]`.
  abbrev pub metric : Metrics → String → Value
  metric [] k = nothing
  metric ((key, v) ∷ m) k = if same_text (codes key) (codes k) then v else metric m k

  -- `metricsIntPtr`.
  unfoldable pub metrics_int_ptr : Metrics → List String → Option ℤ
  metrics_int_ptr m [] = none
  metrics_int_ptr m (k ∷ ks) = elim (numeric (metric m k)) [
    | none ↦ metrics_int_ptr m ks
    | some n ↦ some n
  ]

  -- `metricsInt`.
  unfoldable pub metrics_int : Metrics → List String → ℤ
  metrics_int m [] = pos 0
  metrics_int m (k ∷ ks) = elim (numeric (metric m k)) [ none ↦ metrics_int m ks | some n ↦ n ]
