-- ===== src/Store/Posts/Effects.antt =====
-- repository/scrape.go: what each statement on posts, comments and samples does to the content.
use jg_smm.Prelude.{
  ℕ, ◌≡◌, refl, Bool, true, false, not, ◌||◌, ◌==◌, if◌then◌else◌, List, [], ◌∷◌, ◌++◌, Option,
  none, some, String, find, any, arith,
}
use jg_smm.Prelude.Table.{update_where}
use jg_smm.Domain.Status.{Platform}
use jg_smm.Domain.Content.{Post, Comment, MetricSnapshot, Content}
use jg_smm.Store.{Db, M, Err, Result, ok, err, driver, query, query_with}
use jg_smm.Store.Posts.{
  upsert_post, upsert_post_at, upsert_comment, upsert_comment_at, create_metric_snapshot,
  get_post_by_external_id, list_raw_payloads, is_post_of, is_comment_of, has_post_id, post_row,
  refreshed_post, comment_row, refreshed_comment, has_negative, is_blank, with_content,
}

-- What holds of a call that fails, and of the statement on the rest of the schedule, holds of the query.
pub query_rule :
    {A : Type 0} (P : Result A × Db → Type 0) (run : M A) (db : Db)
    → ((faults : List Bool) → P (err driver, record db { faults = faults }))
    → ((faults : List Bool) → P (run (record db { faults = faults })))
    → P (query run db)
query_rule P run db fails runs = go db.faults
  where
    go : (faults : List Bool) → P (query_with faults run db)
    go [] = runs db.faults
    go (true ∷ rest) = fails rest
    go (false ∷ rest) = runs rest

-- An upsert of a post fails without a write, refreshes the row of its key, or adds one at the head.
pub data PostEffect (new : Post) (before : Content) : Result Post → Content → Type 0 where
  failed : (e : Err) → PostEffect new before (err e) before
  refreshed :
      (old : Post) (now : ℕ)
      → find (is_post_of new.platform new.external_id) before.posts ≡ some old
      → PostEffect new before (ok (refreshed_post new now old)) (record before {
        posts =
            update_where
              (is_post_of new.platform new.external_id)
              (refreshed_post new now)
              before.posts;
      })
  added :
      (i now : ℕ)
      → find (is_post_of new.platform new.external_id) before.posts ≡ none
      → PostEffect new before
          (ok (post_row i now new))
          (record before { posts = post_row i now new ∷ before.posts })

abbrev HasPostEffect : Post → Content → Result Post × Db → Type 0
HasPostEffect new before (r, db) = PostEffect new before r db.content

upsert_post_at-PostEffect :
    (new_id : Db → ℕ) (new : Post) (db : Db) (x : Option Post)
    → find (is_post_of new.platform new.external_id) db.content.posts ≡ x
    → HasPostEffect new db.content (upsert_post_at new_id new x db)
upsert_post_at-PostEffect new_id new db none e = added (new_id db) db.now e
upsert_post_at-PostEffect new_id new db (some old) e = refreshed old db.now e

if-PostEffect :
    (b : Bool) (new : Post) (db : Db) (x : Result Post × Db)
    → HasPostEffect new db.content x
    → HasPostEffect new db.content (if b then (err driver, db) else x)
if-PostEffect true new db x h = failed driver
if-PostEffect false new db x h = h

pub upsert_post-PostEffect :
    (new_id : Db → ℕ) (new : Post) (db : Db)
    → PostEffect new db.content (upsert_post new_id new db).0 (upsert_post new_id new db).1.content
unfolding upsert_post
upsert_post-PostEffect new_id new db =
    query_rule (HasPostEffect new db.content)
      (λ db'.
        if is_blank new.author_handle
        then (err driver, db')
        else upsert_post_at new_id new
            (find (is_post_of new.platform new.external_id) db'.content.posts) db')
      db (λ faults. failed driver)
      (λ faults.
        if-PostEffect (is_blank new.author_handle) new (record db { faults = faults }) _
          (upsert_post_at-PostEffect new_id new (record db { faults = faults })
            (find (is_post_of new.platform new.external_id) db.content.posts) refl))

-- The same of a comment, whose post is there when it is new.
pub data CommentEffect (new : Comment) (before : Content) : Result Comment → Content → Type 0 where
  failed : (e : Err) → CommentEffect new before (err e) before
  refreshed :
      (old : Comment) (now : ℕ)
      → find (is_comment_of new.platform new.external_id) before.comments ≡ some old
      → CommentEffect new before (ok (refreshed_comment new now old)) (record before {
        comments =
            update_where
              (is_comment_of new.platform new.external_id)
              (refreshed_comment new now)
              before.comments;
      })
  added :
      (i now : ℕ)
      → find (is_comment_of new.platform new.external_id) before.comments ≡ none
      → any (has_post_id new.post_id) before.posts ≡ true
      → CommentEffect new before
          (ok (comment_row i now new))
          (record before { comments = comment_row i now new ∷ before.comments })

abbrev HasCommentEffect : Comment → Content → Result Comment × Db → Type 0
HasCommentEffect new before (r, db) = CommentEffect new before r db.content

if-CommentEffect :
    (b : Bool) (new : Comment) (db : Db) (x : Result Comment × Db)
    → (b ≡ false → HasCommentEffect new db.content x)
    → HasCommentEffect new db.content (if b then (err driver, db) else x)
if-CommentEffect true new db x h = failed driver
if-CommentEffect false new db x h = h refl

upsert_comment_at-CommentEffect :
    (new_id : Db → ℕ) (new : Comment) (db : Db) (x : Option Comment)
    → find (is_comment_of new.platform new.external_id) db.content.comments ≡ x
    → HasCommentEffect new db.content (upsert_comment_at new_id new x db)
upsert_comment_at-CommentEffect new_id new db none e =
    if-CommentEffect (not (any (has_post_id new.post_id) db.content.posts)) new db _
      (λ h. added (new_id db) db.now e (ground (arith, h)))
upsert_comment_at-CommentEffect new_id new db (some old) e = refreshed old db.now e

pub upsert_comment-CommentEffect :
    (new_id : Db → ℕ) (new : Comment) (db : Db)
    → CommentEffect new db.content
        (upsert_comment new_id new db).0
        (upsert_comment new_id new db).1.content
unfolding upsert_comment
upsert_comment-CommentEffect new_id new db =
    query_rule (HasCommentEffect new db.content)
      (λ db'.
        if is_blank new.text || new.post_id == 0
        then (err driver, db')
        else upsert_comment_at new_id new
            (find (is_comment_of new.platform new.external_id) db'.content.comments) db')
      db (λ faults. failed driver)
      (λ faults.
        if-CommentEffect (is_blank new.text || new.post_id == 0) new (record db { faults = faults })
          _
          (λ h.
            upsert_comment_at-CommentEffect new_id new (record db { faults = faults })
              (find (is_comment_of new.platform new.external_id) db.content.comments) refl))

-- A sample is put at the end, or nothing is written.
pub data SampleEffect (s : MetricSnapshot) (before : Content)
    : Result (Unit {0}) → Content → Type 0 where
  failed : (e : Err) → SampleEffect s before (err e) before
  added :
      (now : ℕ)
      → SampleEffect s before
          (ok tt)
          (record before { snapshots = before.snapshots ++ (record s { ts = now } ∷ []) })

abbrev HasSampleEffect : MetricSnapshot → Content → Result (Unit {0}) × Db → Type 0
HasSampleEffect s before (r, db) = SampleEffect s before r db.content

if-SampleEffect :
    (b : Bool) (s : MetricSnapshot) (db : Db) (x : Result (Unit {0}) × Db)
    → HasSampleEffect s db.content x
    → HasSampleEffect s db.content (if b then (err driver, db) else x)
if-SampleEffect true s db x h = failed driver
if-SampleEffect false s db x h = h

pub create_metric_snapshot-SampleEffect :
    (s : MetricSnapshot) (db : Db)
    → SampleEffect s db.content
        (create_metric_snapshot s db).0
        (create_metric_snapshot s db).1.content
unfolding create_metric_snapshot
create_metric_snapshot-SampleEffect s db =
    query_rule (HasSampleEffect s db.content)
      (λ db'.
        if has_negative s || not (any (has_post_id s.post_id) db'.content.posts)
        then (err driver, db')
        else (
          ok tt,
          with_content
              (λ c. record c { snapshots = c.snapshots ++ (record s { ts = db'.now } ∷ []) }) db',
        ))
      db (λ faults. failed driver)
      (λ faults. if-SampleEffect _ s (record db { faults = faults }) _ (added db.now))

-- The lookups write nothing.
pub get_post_by_external_id-content :
    (platform : Platform) (external_id : String) (db : Db)
    → (get_post_by_external_id platform external_id db).1.content ≡ db.content
unfolding get_post_by_external_id
get_post_by_external_id-content platform external_id db = ground arith

pub list_raw_payloads-content :
    (run : ℕ) (db : Db) → (list_raw_payloads run db).1.content ≡ db.content
unfolding list_raw_payloads
list_raw_payloads-content run db = ground arith

-- Each statement writes one table.
pub PostEffect-others :
    (new : Post) (c c' : Content) (r : Result Post)
    → PostEffect new c r c'
    → (c'.comments ≡ c.comments) × ((c'.snapshots ≡ c.snapshots) × (c'.payloads ≡ c.payloads))
PostEffect-others new c c' r (PostEffect.failed e) = (refl, (refl, refl))
PostEffect-others new c c' r (PostEffect.refreshed old now e) = (refl, (refl, refl))
PostEffect-others new c c' r (PostEffect.added i now e) = (refl, (refl, refl))

pub CommentEffect-others :
    (new : Comment) (c c' : Content) (r : Result Comment)
    → CommentEffect new c r c'
    → (c'.posts ≡ c.posts) × ((c'.snapshots ≡ c.snapshots) × (c'.payloads ≡ c.payloads))
CommentEffect-others new c c' r (CommentEffect.failed e) = (refl, (refl, refl))
CommentEffect-others new c c' r (CommentEffect.refreshed old now e) = (refl, (refl, refl))
CommentEffect-others new c c' r (CommentEffect.added i now e t) = (refl, (refl, refl))

pub SampleEffect-others :
    (s : MetricSnapshot) (c c' : Content) (r : Result (Unit {0}))
    → SampleEffect s c r c'
    → (c'.posts ≡ c.posts) × ((c'.comments ≡ c.comments) × (c'.payloads ≡ c.payloads))
SampleEffect-others s c c' r (SampleEffect.failed e) = (refl, (refl, refl))
SampleEffect-others s c c' r (SampleEffect.added now) = (refl, (refl, refl))

pub PostEffect-batches :
    (new : Post) (c c' : Content) (r : Result Post)
    → PostEffect new c r c'
    → c'.keyword_batches ≡ c.keyword_batches
PostEffect-batches new c c' r (PostEffect.failed e) = refl
PostEffect-batches new c c' r (PostEffect.refreshed old now e) = refl
PostEffect-batches new c c' r (PostEffect.added i now e) = refl

pub CommentEffect-batches :
    (new : Comment) (c c' : Content) (r : Result Comment)
    → CommentEffect new c r c'
    → c'.keyword_batches ≡ c.keyword_batches
CommentEffect-batches new c c' r (CommentEffect.failed e) = refl
CommentEffect-batches new c c' r (CommentEffect.refreshed old now e) = refl
CommentEffect-batches new c c' r (CommentEffect.added i now e t) = refl

pub SampleEffect-batches :
    (s : MetricSnapshot) (c c' : Content) (r : Result (Unit {0}))
    → SampleEffect s c r c'
    → c'.keyword_batches ≡ c.keyword_batches
SampleEffect-batches s c c' r (SampleEffect.failed e) = refl
SampleEffect-batches s c c' r (SampleEffect.added now) = refl
