-- ===== src/Ingesting/Counters.antt =====
-- scrape_ingestor.go: what the counters of an ingestion say of the tables.
use jg_smm.Prelude.{
  ℕ, suc, ◌+◌, ◌≤◌, ◌≡◌, refl, sym, ap, ◌∙◌, Bool, true, List, [], ◌∷◌, ◌++◌, Option, some, any,
  find, arith, length, length-append, All,
}
use std.Path.{subst}
use jg_smm.Prelude.Table.{any-update_where, length-update_where}
use jg_smm.Domain.Status.{Platform}
use jg_smm.Domain.Content.{Post, Comment, MetricSnapshot, Content}
use jg_smm.Store.{Db, Result, ok, err}
use jg_smm.Store.Posts.{is_post_of, has_post_id, refreshed_post, is_comment_of, refreshed_comment}
use jg_smm.Store.Posts.Effects.{
  PostEffect, CommentEffect, SampleEffect, PostEffect-others, CommentEffect-others,
  SampleEffect-others,
}
use jg_smm.Domain.Datasets.{Window}
use jg_smm.Ingesting.{
  IngestResult, IngestPorts, no_result, ingest_run, with_post, with_comment, with_snapshot,
  with_bytes,
}
use jg_smm.Ingesting.Rule.{IsKept, Left, ingest_run_rule}
use jg_smm.Ingesting.Keys.{all_good}

abbrev pub IsStored : List Post → ℕ → Type 0
IsStored posts i = any (has_post_id i) posts ≡ true

-- The counters against the tables as they were before: every id is that of a stored post, each
-- counter is the number of the writes, and a table grows by no more than was upserted.
pub record Counted (before : Content) (res : IngestResult) (c : Content) : Type 0 where
  pub ids : length res.post_ids ≡ res.posts_upserted
  pub stored : All (IsStored c.posts) res.post_ids
  pub samples : length c.snapshots ≡ length before.snapshots + res.snapshots_written
  pub posts_bound : length c.posts ≤ length before.posts + res.posts_upserted
  pub comments_bound : length c.comments ≤ length before.comments + res.comments_upserted

All-append_one : (P : ℕ → Type 0) (is : List ℕ) (i : ℕ) → All P is → P i → All P (is ++ (i ∷ []))
All-append_one P [] i h p = (p, tt)
All-append_one P (j ∷ is) i (q, h) p = (q, All-append_one P is i h p)

All-mono : (P Q : ℕ → Type 0) (is : List ℕ) → ((i : ℕ) → P i → Q i) → All P is → All Q is
All-mono P Q [] f h = tt
All-mono P Q (i ∷ is) f (p, h) = (f i p, All-mono P Q is f h)

find-stored :
    (q : Post → Bool) (posts : List Post) (old : Post)
    → find q posts ≡ some old
    → IsStored posts old.id
find-stored q [] old h = ground arith
find-stored q (p ∷ posts) old h = ground (arith, h, find-stored q posts old)

-- A stored id stays stored, and the row that an upsert returns is stored.
post-stored :
    (new : Post) (c c' : Content) (r : Result Post) (i : ℕ)
    → PostEffect new c r c'
    → IsStored c.posts i
    → IsStored c'.posts i
post-stored new c c' r i (PostEffect.failed e) h = h
post-stored new c c' r i (PostEffect.refreshed old now e) h =
    any-update_where (has_post_id i) (is_post_of new.platform new.external_id)
      (refreshed_post new now) c.posts (λ p. refl)
    ∙ h
post-stored new c c' r i (PostEffect.added j now e) h = ground (arith, h)

returned-stored :
    (new : Post) (c c' : Content) (p : Post) → PostEffect new c (ok p) c' → IsStored c'.posts p.id
returned-stored new c c' p (PostEffect.refreshed old now e) =
    any-update_where (has_post_id old.id) (is_post_of new.platform new.external_id)
      (refreshed_post new now) c.posts (λ q. refl)
    ∙ find-stored (is_post_of new.platform new.external_id) c.posts old e
returned-stored new c c' p (PostEffect.added j now e) = ground arith

post-length :
    (new : Post) (c c' : Content) (r : Result Post)
    → PostEffect new c r c'
    → length c'.posts ≤ suc (length c.posts)
post-length new c c' r (PostEffect.failed e) = omega arith
post-length new c c' r (PostEffect.refreshed old now e) = omega (
  arith,
  length-update_where (is_post_of new.platform new.external_id) (refreshed_post new now) c.posts,
)
post-length new c c' r (PostEffect.added i now e) = omega arith

comment-length :
    (new : Comment) (c c' : Content) (r : Result Comment)
    → CommentEffect new c r c'
    → length c'.comments ≤ suc (length c.comments)
comment-length new c c' r (CommentEffect.failed e) = omega arith
comment-length new c c' r (CommentEffect.refreshed old now e) = omega (
  arith,
  length-update_where (is_comment_of new.platform new.external_id) (refreshed_comment new now)
      c.comments,
)
comment-length new c c' r (CommentEffect.added i now e t) = omega arith

sample-length :
    (s : MetricSnapshot) (c c' : Content)
    → SampleEffect s c (ok tt) c'
    → length c'.snapshots ≡ suc (length c.snapshots)
sample-length s c c' (SampleEffect.added now) =
    omega (arith, length-append c.snapshots (record s { ts = now } ∷ []))

post-Counted :
    (before : Content) (res : IngestResult) (c c' : Content) (new p : Post)
    → Counted before res c
    → PostEffect new c (ok p) c'
    → Counted before (with_post p res) c'
post-Counted before res c c' new p h e = record {
  ids = omega (arith, length-append res.post_ids (p.id ∷ []), h.ids);
  stored =
      All-append_one (IsStored c'.posts) res.post_ids p.id
        (All-mono (IsStored c.posts) (IsStored c'.posts) res.post_ids
          (λ i. post-stored new c c' (ok p) i e) h.stored)
        (returned-stored new c c' p e);
  samples = ap length (PostEffect-others new c c' (ok p) e).1.0 ∙ h.samples;
  posts_bound = omega (arith, post-length new c c' (ok p) e, h.posts_bound);
  comments_bound =
      omega (arith, ap length (PostEffect-others new c c' (ok p) e).0, h.comments_bound);
}

comment-Counted :
    (before : Content) (res : IngestResult) (c c' : Content) (new m : Comment)
    → Counted before res c
    → CommentEffect new c (ok m) c'
    → Counted before (with_comment res) c'
comment-Counted before res c c' new m h e =
    let (posts, (snapshots, payloads)) = CommentEffect-others new c c' (ok m) e in
    record {
      ids = h.ids;
      stored = subst (λ ps. All (IsStored ps) res.post_ids) (sym posts) h.stored;
      samples = ap length snapshots ∙ h.samples;
      posts_bound = omega (arith, ap length posts, h.posts_bound);
      comments_bound = omega (arith, comment-length new c c' (ok m) e, h.comments_bound);
    }

sample-Counted :
    (before : Content) (res : IngestResult) (c c' : Content) (s : MetricSnapshot)
    → Counted before res c
    → SampleEffect s c (ok tt) c'
    → Counted before (with_snapshot res) c'
sample-Counted before res c c' s h e =
    let (posts, (comments, payloads)) = SampleEffect-others s c c' (ok tt) e in
    record {
      ids = h.ids;
      stored = subst (λ ps. All (IsStored ps) res.post_ids) (sym posts) h.stored;
      samples = omega (arith, sample-length s c c' e, h.samples);
      posts_bound = omega (arith, ap length posts, h.posts_bound);
      comments_bound = omega (arith, ap length comments, h.comments_bound);
    }

bytes-Counted :
    (before : Content) (res : IngestResult) (c : Content) (raw : List ℕ)
    → Counted before res c
    → Counted before (with_bytes raw res) c
bytes-Counted before res c raw h = record {
  ids = h.ids;
  stored = h.stored;
  samples = h.samples;
  posts_bound = h.posts_bound;
  comments_bound = h.comments_bound;
}

Counted-IsKept : (before : Content) → IsKept (λ s. Unit) (Counted before)
Counted-IsKept before = record {
  at_post = λ res c c' new p h e. post-Counted before res c c' new p h e;
  at_comment = λ res c c' new m h e. comment-Counted before res c c' new m h e;
  at_sample = λ res c c' s q h e. sample-Counted before res c c' s h e;
  at_bytes = λ res c raw h. bytes-Counted before res c raw h;
}

-- An error counts nothing.
abbrev pub Counts : Content → Result IngestResult × Db → Type 0
Counts before (ok res, db) = Counted before res db.content
Counts before (err e, db) = Counted before no_result db.content

Left-Counts :
    (ports : IngestPorts) (before : Content) (x : Result IngestResult × Db)
    → Left ports (λ s. Unit) (Counted before) (Counted-IsKept before) x
    → Counts before x
Left-Counts ports before (ok res, db) h = h
Left-Counts ports before (err e, db) h = h

-- Whatever an ingestion reads and whichever calls fail, every id that it answers is that of a stored
-- post, and there are as many as the posts that it counts; as many samples were added as it counts;
-- and posts and comments grew by no more than it counts.
pub ingest_run-Counts :
    (ports : IngestPorts) (platform : Option Platform) (w : Window) (run : ℕ) (db : Db)
    → Counts db.content (ingest_run ports platform w run db)
ingest_run-Counts ports platform w run db =
    Left-Counts ports db.content (ingest_run ports platform w run db) (
      ingest_run_rule ports (λ s. Unit) (Counted db.content) (Counted-IsKept db.content) platform w
        run db (λ raw. all_good ports (Counted db.content) (Counted-IsKept db.content) _)
        (record {
          ids = refl;
          stored = tt;
          samples = omega arith;
          posts_bound = omega arith;
          comments_bound = omega arith;
        }))
