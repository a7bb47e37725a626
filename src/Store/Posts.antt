-- ===== src/Store/Posts.antt =====
-- apps/api/internal/repository/scrape.go: the statements on posts, comments, samples of metrics, runs
-- of an actor and pointers to raw payloads, with their queries (apps/api/db/queries/content.sql,
-- metric_snapshot.sql, scrape_job.sql) and the constraints of the migration 000004.
pub mod Effects
use jg_smm.Prelude.{
  ℕ, Bool, true, false, not, ◌&&◌, ◌||◌, ◌==◌, if◌then◌else◌, List, [], ◌∷◌, ◌++◌, map, Option,
  none, some, String, find, any, keep,
}
use jg_smm.Prelude.Int.{ℤ, pos, negsuc}
use jg_smm.Prelude.Table.{update_where}
use jg_smm.Prelude.Text.{codes}
use jg_smm.Domain.Status.{Platform, platform_number}
use jg_smm.Domain.Content.{Post, Comment, MetricSnapshot, ApifyRun, RawPayload, Content}
use jg_smm.Store.{Db, M, Result, ok, err, not_found, driver, query}
use jg_smm.Store.Workers.{same_text}

-- `length(btrim(s)) > 0` fails on a text of spaces.
abbrev pub is_blank_code : ℕ → Bool
is_blank_code c = c == 32

abbrev pub is_blank : String → Bool
is_blank s = not (any (λ c. not (is_blank_code c)) (codes s))

abbrev pub with_content : (Content → Content) → Db → Db
with_content f db = record db { content = f db.content }

-- The row that holds the pair of a platform and an external id.
abbrev pub is_post_of : Platform → String → Post → Bool
is_post_of platform external_id p =
    platform_number p.platform == platform_number platform
    && same_text (codes p.external_id) (codes external_id)

abbrev pub is_comment_of : Platform → String → Comment → Bool
is_comment_of platform external_id c =
    platform_number c.platform == platform_number platform
    && same_text (codes c.external_id) (codes external_id)

abbrev pub has_post_id : ℕ → Post → Bool
has_post_id i p = p.id == i

-- What ON CONFLICT writes; the author stays as it was.
abbrev pub refreshed_post : Post → ℕ → Post → Post
refreshed_post new now p = record p {
  text = new.text;
  media_urls = new.media_urls;
  metrics = new.metrics;
  scraped_at = now;
  author_account_id = new.author_account_id;
}

abbrev pub post_row : ℕ → ℕ → Post → Post
post_row i now new = record new { id = i; scraped_at = now }

abbrev pub upsert_post_at : (Db → ℕ) → Post → Option Post → M Post
upsert_post_at new_id new (some p) db = (
  ok (refreshed_post new db.now p),
  with_content
      (λ c. record c {
        posts =
            update_where (is_post_of new.platform new.external_id) (refreshed_post new db.now)
              c.posts;
      })
      db,
)
upsert_post_at new_id new none db = (
  ok (post_row (new_id db) db.now new),
  with_content (λ c. record c { posts = post_row (new_id db) db.now new ∷ c.posts }) db,
)

-- The reference to the account of the author is absent in the one caller.
unfoldable pub upsert_post : (Db → ℕ) → Post → M Post
unfolding update_where
upsert_post new_id new = query λ db.
    if is_blank new.author_handle
    then (err driver, db)
    else upsert_post_at new_id new (find (is_post_of new.platform new.external_id) db.content.posts)
        db

abbrev pub return_post : Option Post → M Post
return_post none db = (err not_found, db)
return_post (some p) db = (ok p, db)

unfoldable pub get_post : ℕ → M Post
get_post i = query λ db. return_post (find (has_post_id i) db.content.posts) db

unfoldable pub get_post_by_external_id : Platform → String → M Post
get_post_by_external_id platform external_id =
    query λ db. return_post (find (is_post_of platform external_id) db.content.posts) db

abbrev pub refreshed_comment : Comment → ℕ → Comment → Comment
refreshed_comment new now c = record c {
  text = new.text;
  metrics = new.metrics;
  scraped_at = now;
  parent_id = new.parent_id;
}

abbrev pub comment_row : ℕ → ℕ → Comment → Comment
comment_row i now new = record new { id = i; scraped_at = now }

abbrev pub upsert_comment_at : (Db → ℕ) → Comment → Option Comment → M Comment
upsert_comment_at new_id new (some c) db = (
  ok (refreshed_comment new db.now c),
  with_content
      (λ t. record t {
        comments =
            update_where (is_comment_of new.platform new.external_id) (refreshed_comment new db.now)
              t.comments;
      })
      db,
)
upsert_comment_at new_id new none db =
    if not (any (has_post_id new.post_id) db.content.posts) then (err driver, db) else (
      ok (comment_row (new_id db) db.now new),
      with_content (λ t. record t { comments = comment_row (new_id db) db.now new ∷ t.comments })
          db,
    )

-- A post id that is no UUID, here 0, is NULL, which the column refuses before the conflict is looked
-- for; the reference to the post is tested for a new row.
unfoldable pub upsert_comment : (Db → ℕ) → Comment → M Comment
unfolding update_where
upsert_comment new_id new = query λ db.
    if is_blank new.text || new.post_id == 0
    then (err driver, db)
    else upsert_comment_at new_id new
        (find (is_comment_of new.platform new.external_id) db.content.comments) db

abbrev pub is_negative : ℤ → Bool
is_negative (pos n) = false
is_negative (negsuc n) = true

abbrev pub is_negative_count : Option ℤ → Bool
is_negative_count none = false
is_negative_count (some n) = is_negative n

-- The check `metric_snapshot_counts_nonneg`.
abbrev pub has_negative : MetricSnapshot → Bool
has_negative s =
    is_negative s.views
    || (is_negative s.likes
        || (is_negative s.comments
            || (is_negative s.shares
                || (is_negative_count s.reach || is_negative_count s.reels_views))))

-- The statement leaves the time out, so the column takes its default.
unfoldable pub create_metric_snapshot : MetricSnapshot → M (Unit {0})
create_metric_snapshot s = query λ db.
    if has_negative s || not (any (has_post_id s.post_id) db.content.posts)
    then (err driver, db)
    else (
      ok tt,
      with_content (λ c. record c { snapshots = c.snapshots ++ (record s { ts = db.now } ∷ []) })
          db,
    )

abbrev pub has_run_id : ℕ → ApifyRun → Bool
has_run_id i r = r.id == i

abbrev pub run_row : ℕ → ℕ → ApifyRun → ApifyRun
run_row i now r = record r { id = i; started_at = now; finished_at = none }

abbrev pub same_job : Option ℕ → ApifyRun → Bool
same_job none r = false
same_job (some j) r = elim r.scrape_job_id [ none ↦ false | some k ↦ k == j ]

-- A scrape job has one run at most. Its row is there in the callers, which just made it.
unfoldable pub create_apify_run : (Db → ℕ) → ApifyRun → M ApifyRun
create_apify_run new_id r = query λ db.
    if is_blank r.status || any (same_job r.scrape_job_id) db.content.runs
    then (err driver, db)
    else (
      ok (run_row (new_id db) db.now r),
      with_content (λ c. record c { runs = run_row (new_id db) db.now r ∷ c.runs }) db,
    )

abbrev pub stamped_run : ApifyRun → Option ℕ → ApifyRun → ApifyRun
stamped_run new fin r = record r { status = new.status; finished_at = fin }

abbrev pub stamp_if : Bool → ℕ → Option ℕ
stamp_if true now = some now
stamp_if false now = none

abbrev pub return_run : Option ApifyRun → Db → Result ApifyRun × Db
return_run none db = (err not_found, db)
return_run (some r) db = (ok r, db)

-- The statement writes the status and the end; the run id of the provider is not among its columns.
unfoldable pub update_apify_run : ApifyRun → Bool → M ApifyRun
unfolding update_where
update_apify_run new finished = query λ db.
    if is_blank new.status && any (has_run_id new.id) db.content.runs
    then (err driver, db)
    else let runs =
        update_where (has_run_id new.id) (stamped_run new (stamp_if finished db.now))
          db.content.runs in
      return_run (find (has_run_id new.id) runs) (with_content (λ c. record c { runs = runs }) db)

unfoldable pub create_raw_payload : ℕ → String → M (Unit {0})
create_raw_payload run key = query λ db.
    if is_blank key || not (any (has_run_id run) db.content.runs) then (err driver, db) else (
      ok tt,
      with_content
          (λ c. record c {
            payloads = c.payloads ++ (record { apify_run_id = run; s3_key = key } ∷ []);
          })
          db,
    )

abbrev pub is_payload_of : ℕ → RawPayload → Bool
is_payload_of run p = p.apify_run_id == run

abbrev pub key_of : RawPayload → String
key_of p = p.s3_key

-- `ListRawPayloadsByRunID`, in the order in which they were received.
unfoldable pub list_raw_payloads : ℕ → M (List String)
list_raw_payloads run =
    query λ db. (ok (map key_of (keep (is_payload_of run) db.content.payloads)), db)
