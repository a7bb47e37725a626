-- ===== src/Ingesting/Rule.antt =====
-- scrape_ingestor.go: what each write of an ingestion keeps, a whole run keeps.
use jg_smm.Prelude.{
  ℕ, ◌≡◌, refl, sym, ◌∙◌, Bool, true, false, if◌then◌else◌, List, [], ◌∷◌, Option, none, some,
  String, All,
}
use std.Path.{subst}
use jg_smm.Domain.Status.{Platform}
use jg_smm.Domain.Content.{Post, Comment, MetricSnapshot, Content}
use jg_smm.Store.{Db, Result, ok, err, bind_result}
use jg_smm.Store.Posts.{
  upsert_post, upsert_comment, create_metric_snapshot, get_post_by_external_id, list_raw_payloads,
}
use jg_smm.Store.Posts.Effects.{
  PostEffect, CommentEffect, SampleEffect, upsert_post-PostEffect, upsert_comment-CommentEffect,
  create_metric_snapshot-SampleEffect, get_post_by_external_id-content, list_raw_payloads-content,
}
use jg_smm.Users.{is_empty}
use jg_smm.Domain.Datasets.{ScrapeItem, Window}
use jg_smm.Parsing.{parse_items}
use jg_smm.Ingesting.{
  IngestResult, IngestPorts, no_result, with_post, with_comment, with_snapshot, with_bytes, post_of,
  sample_of, after_sample, after_post, comment_of, parent_of, id_of, after_comment, is_comment,
  ingest_post, ingest_comment, ingest_known, ingest_item, ingest_items, ingest_parsed, ingest_raw,
  ingest_keys, ingest_run, answer,
}

-- A predicate of the counters and the content that every single write keeps. The samples that are
-- written satisfy Q.
pub record IsKept (Q : MetricSnapshot → Type 0) (P : IngestResult → Content → Type 0) : Type 0 where
  pub at_post :
      (res : IngestResult) (c c' : Content) (new p : Post)
      → P res c
      → PostEffect new c (ok p) c'
      → P (with_post p res) c'
  pub at_comment :
      (res : IngestResult) (c c' : Content) (new m : Comment)
      → P res c
      → CommentEffect new c (ok m) c'
      → P (with_comment res) c'
  pub at_sample :
      (res : IngestResult) (c c' : Content) (s : MetricSnapshot)
      → Q s
      → P res c
      → SampleEffect s c (ok tt) c'
      → P (with_snapshot res) c'
  pub at_bytes :
      (res : IngestResult) (c : Content) (raw : List ℕ) → P res c → P (with_bytes raw res) c

module _ (ports : IngestPorts) (Q : MetricSnapshot → Type 0) (P : IngestResult → Content → Type 0)
    (kept : IsKept Q P) where
  -- An item whose samples satisfy Q.
  abbrev pub IsGood : ScrapeItem → Type 0
  IsGood item = (post now : ℕ) → Q (sample_of ports post now item.metrics)

  abbrev pub Holds : IngestResult × Db → Type 0
  Holds (res, db) = P res db.content

  sample-Holds :
      (s : MetricSnapshot) (c : Content) (res : IngestResult) (x : Result (Unit {0}) × Db)
      → Q s
      → SampleEffect s c x.0 x.1.content
      → P res c
      → Holds (after_sample ports res x)
  sample-Holds s c res (ok tt, db) q e h = kept.at_sample res c db.content s q h e
  sample-Holds s c res (err e, db) q (SampleEffect.failed _) h = h

  post-Holds :
      (new : Post) (c : Content) (item : ScrapeItem) (res : IngestResult) (x : Result Post × Db)
      → IsGood item
      → PostEffect new c x.0 x.1.content
      → P res c
      → Holds (after_post ports item res x)
  post-Holds new c item res (ok p, db) good e h =
      sample-Holds (sample_of ports p.id db.now item.metrics) db.content (with_post p res)
        (create_metric_snapshot (sample_of ports p.id db.now item.metrics) db) (good p.id db.now)
        (create_metric_snapshot-SampleEffect (sample_of ports p.id db.now item.metrics) db)
        (kept.at_post res c db.content new p h e)
  post-Holds new c item res (err e, db) good (PostEffect.failed _) h = h

  comment-Holds :
      (new : Comment) (c : Content) (res : IngestResult) (x : Result Comment × Db)
      → CommentEffect new c x.0 x.1.content
      → P res c
      → Holds (after_comment ports res x)
  comment-Holds new c res (ok m, db) e h = kept.at_comment res c db.content new m h e
  comment-Holds new c res (err e, db) (CommentEffect.failed _) h = h

  bound-Holds :
      (platform : Platform) (item : ScrapeItem) (res : IngestResult) (x : Result ℕ × Db)
      → P res x.1.content
      → Holds (
          after_comment ports res (
            bind_result x
              (λ post. upsert_comment ports.new_id (comment_of ports platform item post))))
  bound-Holds platform item res (err e, db) h = h
  bound-Holds platform item res (ok post, db) h =
      comment-Holds (comment_of ports platform item post) db.content res
        (upsert_comment ports.new_id (comment_of ports platform item post) db)
        (upsert_comment-CommentEffect ports.new_id (comment_of ports platform item post) db) h

  found-content : (x : Result Post × Db) → (bind_result x (id_of ports)).1.content ≡ x.1.content
  found-content (ok p, db) = refl
  found-content (err e, db) = refl

  pub parent-content :
      (platform : Platform) (item : ScrapeItem) (db : Db) (b : Bool)
      → is_empty item.post_id ≡ b
      → (parent_of ports platform item db).1.content ≡ db.content
  parent-content platform item db true e = rw e (
      found-content (get_post_by_external_id platform item.comment_of db)
      ∙ get_post_by_external_id-content platform item.comment_of db)
  parent-content platform item db false e = rw e refl

  if-Holds : (b : Bool) (x y : IngestResult × Db) → Holds x → Holds y → Holds (if b then x else y)
  if-Holds true x y p q = p
  if-Holds false x y p q = q

  known-Holds :
      (platform : Option Platform) (item : ScrapeItem) (res : IngestResult) (db : Db)
      → IsGood item
      → P res db.content
      → Holds (ingest_known ports platform item res db)
  unfolding ingest_post ingest_comment
  known-Holds none item res db good h = h
  known-Holds (some p) item res db good h =
      if-Holds (is_empty item.external_id) (res, db) _ h
        (if-Holds (is_comment ports item) _ _
          (bound-Holds p item res (parent_of ports p item db)
            (subst (P res) (sym (parent-content p item db (is_empty item.post_id) refl)) h))
          (post-Holds (post_of ports p item) db.content item res
            (upsert_post ports.new_id (post_of ports p item) db) good
            (upsert_post-PostEffect ports.new_id (post_of ports p item) db) h))

  pub item-Holds :
      (item : ScrapeItem) (res : IngestResult) (db : Db)
      → IsGood item
      → P res db.content
      → Holds (ingest_item ports item res db)
  unfolding ingest_item
  item-Holds item res db g h = known-Holds item.platform item res db g h

  pub items-Holds :
      (items : List ScrapeItem) (x : IngestResult × Db)
      → All IsGood items
      → Holds x
      → Holds (ingest_items ports items x)
  unfolding ingest_items
  items-Holds [] x good h = h
  items-Holds (item ∷ items) (res, db) (g, good) h =
      items-Holds items _ good (item-Holds item res db g h)

  abbrev pub GoodItems : Option (List ScrapeItem) → Type 0
  GoodItems none = Unit
  GoodItems (some items) = All IsGood items

  -- Every item that the parser makes of a raw row is good.
  abbrev pub Parses : Option Platform → Window → Type 0
  Parses platform w = (raw : List ℕ) → GoodItems (parse_items ports.decoders platform raw w)

  pub parsed-Holds :
      (x : Option (List ScrapeItem)) (y : IngestResult × Db)
      → GoodItems x
      → Holds y
      → Holds (ingest_parsed ports x y)
  parsed-Holds none y good h = h
  parsed-Holds (some items) y good h = items-Holds items y good h

  pub raw-Holds :
      (platform : Option Platform) (w : Window) (raw : Option (List ℕ)) (x : IngestResult × Db)
      → Parses platform w
      → Holds x
      → Holds (ingest_raw ports platform w raw x)
  raw-Holds platform w none x good h = h
  raw-Holds platform w (some raw) (res, db) good h =
      parsed-Holds (parse_items ports.decoders platform raw w) (with_bytes raw res, db) (good raw)
        (kept.at_bytes res db.content raw h)

  pub keys-Holds :
      (platform : Option Platform) (w : Window) (get : String → Option (List ℕ))
      (keys : List String) (x : IngestResult × Db)
      → Parses platform w
      → Holds x
      → Holds (ingest_keys ports platform w get keys x)
  unfolding ingest_keys
  keys-Holds platform w get [] x good h = h
  keys-Holds platform w get (k ∷ ks) x good h =
      keys-Holds platform w get ks _ good (raw-Holds platform w (get k) x good h)

  -- What a run answers and leaves, with no counters when it answers by an error.
  abbrev pub Left : Result IngestResult × Db → Type 0
  Left (ok res, db) = P res db.content
  Left (err e, db) = P no_result db.content

  listed-Left :
      (platform : Option Platform) (w : Window) (get : String → Option (List ℕ))
      (x : Result (List String) × Db)
      → Parses platform w
      → P no_result x.1.content
      → Left (
          bind_result x
            (λ keys db. answer ports (ingest_keys ports platform w get keys (no_result, db))))
  listed-Left platform w get (err e, db) good h = h
  listed-Left platform w get (ok keys, db) good h =
      keys-Holds platform w get keys (no_result, db) good h

  -- A predicate that holds of the content with the counters at 0, and that each write keeps, holds of
  -- what a run leaves.
  pub ingest_run_rule :
      (platform : Option Platform) (w : Window) (run : ℕ) (db : Db)
      → Parses platform w
      → P no_result db.content
      → Left (ingest_run ports platform w run db)
  unfolding ingest_run
  ingest_run_rule platform w run db good h = go ports.read refl
    where
      go :
          (read : Option (String → Option (List ℕ)))
          → ports.read ≡ read
          → Left (ingest_run ports platform w run db)
      go none e = rw (ingest_run, e) h
      go (some get) e =
          rw (ingest_run, e)
            (listed-Left platform w get (list_raw_payloads run db) good
              (subst (P no_result) (sym (list_raw_payloads-content run db)) h))
