-- ===== src/Ingesting/Settled.antt =====
-- scrape_ingestor.go: items that bring no new post, and calls that do not fail.
use jg_smm.Prelude.{
  ℕ, ◌≡◌, refl, sym, ap, ◌∙◌, inl, inr, Bool, true, ◌||◌, List, [], ◌∷◌, Option, none, some, String,
  any, find, arith, Bool-cases, length,
}
use std.Path.{subst}
use jg_smm.Prelude.Table.{any-update_where, length-update_where}
use jg_smm.Domain.Status.{Platform}
use jg_smm.Domain.Content.{Post, Comment, MetricSnapshot, Content}
use jg_smm.Store.{Db, Result, ok, err, bind_result}
use jg_smm.Store.Posts.{
  is_post_of, is_blank, upsert_post, upsert_comment, create_metric_snapshot,
  get_post_by_external_id, list_raw_payloads, refreshed_post,
}
use jg_smm.Store.Posts.Effects.{
  PostEffect, CommentEffect-others, SampleEffect-others, upsert_post-PostEffect,
  upsert_comment-CommentEffect, create_metric_snapshot-SampleEffect,
}
use jg_smm.Users.{is_empty}
use jg_smm.Domain.Datasets.{ScrapeItem}
use jg_smm.Parsing.{or_default}
use jg_smm.Ingesting.{
  IngestResult, IngestPorts, with_post, post_of, sample_of, after_sample, after_post, comment_of,
  parent_of, after_comment, is_comment, ingest_post, ingest_comment, ingest_known,
}
use jg_smm.Ingesting.Rule.{IsKept, parent-content}

abbrev pub handle_of : ScrapeItem → String
handle_of item = or_default item.author_handle "unknown"

module _ (ports : IngestPorts) where
  -- An item that brings no new post: it is none, it is refused, or its post is stored.
  abbrev pub settled_on : Option Platform → ScrapeItem → List Post → Bool
  settled_on none item posts = true
  settled_on (some p) item posts =
      is_empty item.external_id
      || (is_comment ports item
          || (is_blank (handle_of item) || any (is_post_of p item.external_id) posts))

  abbrev pub settled : ScrapeItem → List Post → Bool
  settled item posts = settled_on item.platform item posts

  post-any :
      (new : Post) (c c' : Content) (r : Result Post) (p : Platform) (e : String)
      → PostEffect new c r c'
      → any (is_post_of p e) c.posts ≡ true
      → any (is_post_of p e) c'.posts ≡ true
  post-any new c c' r p e (PostEffect.failed q) h = h
  post-any new c c' r p e (PostEffect.refreshed old now q) h =
      any-update_where (is_post_of p e) (is_post_of new.platform new.external_id)
        (refreshed_post new now) c.posts (λ x. refl)
      ∙ h
  post-any new c c' r p e (PostEffect.added i now q) h = ground (arith, h)

  settled_on_mono :
      (x : Option Platform) (item : ScrapeItem) (ps qs : List Post)
      → ((p : Platform) (e : String)
          → any (is_post_of p e) ps ≡ true
          → any (is_post_of p e) qs ≡ true)
      → settled_on x item ps ≡ true
      → settled_on x item qs ≡ true
  settled_on_mono none item ps qs m h = refl
  settled_on_mono (some p) item ps qs m h = ground (arith, h, m p item.external_id)

  -- A settled item stays settled, whatever is written.
  abbrev pub IsSettled : ScrapeItem → IngestResult → Content → Type 0
  IsSettled item res c = settled item c.posts ≡ true

  pub IsSettled-IsKept : (item : ScrapeItem) → IsKept (λ s. Unit) (IsSettled item)
  IsSettled-IsKept item = record {
    at_post = λ res c c' new p h e.
        settled_on_mono item.platform item c.posts c'.posts (λ q x. post-any new c c' (ok p) q x e)
          h;
    at_comment = λ res c c' new m h e.
        subst (λ ps. settled item ps ≡ true) (sym (CommentEffect-others new c c' (ok m) e).0) h;
    at_sample = λ res c c' s q h e.
        subst (λ ps. settled item ps ≡ true) (sym (SampleEffect-others s c c' (ok tt) e).0) h;
    at_bytes = λ res c raw h. h;
  }

  -- The posts after an item are those after its upsert.
  pub sample-posts :
      (res : IngestResult) (x : Result (Unit {0}) × Db) → (after_sample ports res x).1 ≡ x.1
  sample-posts res (ok u, db) = refl
  sample-posts res (err e, db) = refl

  pub after_post-posts :
      (item : ScrapeItem) (res : IngestResult) (x : Result Post × Db)
      → (after_post ports item res x).1.content.posts ≡ x.1.content.posts
  after_post-posts item res (err e, db) = refl
  after_post-posts item res (ok p, db) =
      let s = sample_of ports p.id db.now item.metrics in
      ap (λ d. d.content.posts) (sample-posts (with_post p res) (create_metric_snapshot s db))
      ∙ (SampleEffect-others s db.content _ _ (create_metric_snapshot-SampleEffect s db)).0

  pub after_comment-db :
      (res : IngestResult) (x : Result Comment × Db) → (after_comment ports res x).1 ≡ x.1
  after_comment-db res (ok c, db) = refl
  after_comment-db res (err e, db) = refl

  bound-posts :
      (platform : Platform) (item : ScrapeItem) (x : Result ℕ × Db)
      → (bind_result x (λ post.
          upsert_comment ports.new_id (comment_of ports platform item post))).1.content.posts
        ≡ x.1.content.posts
  bound-posts platform item (err e, db) = refl
  bound-posts platform item (ok post, db) =
      let new = comment_of ports platform item post in
      (CommentEffect-others new db.content _ _ (upsert_comment-CommentEffect ports.new_id new db)).0

  -- The upsert of a settled post adds no row, whichever calls fail.
  any-none : (q : Post → Bool) (ps : List Post) → any q ps ≡ true → find q ps ≡ none → ⊥
  any-none q [] h e = ground (arith, h)
  any-none q (p ∷ ps) h e = ground (arith, h, e, any-none q ps)

  effect-length :
      (new : Post) (c c' : Content) (r : Result Post)
      → any (is_post_of new.platform new.external_id) c.posts ≡ true
      → PostEffect new c r c'
      → length c'.posts ≡ length c.posts
  effect-length new c c' r h (PostEffect.failed e) = refl
  effect-length new c c' r h (PostEffect.refreshed old now e) =
      length-update_where (is_post_of new.platform new.external_id) (refreshed_post new now) c.posts
  effect-length new c c' r h (PostEffect.added i now e) =
      absurd (any-none (is_post_of new.platform new.external_id) c.posts h e)

  blank-content :
      (new : Post) (db : Db)
      → is_blank new.author_handle ≡ true
      → (upsert_post ports.new_id new db).1.content ≡ db.content
  unfolding upsert_post
  blank-content new db h = ground (arith, h)

  upsert-length :
      (p : Platform) (item : ScrapeItem) (db : Db)
      → (is_blank (handle_of item) || any (is_post_of p item.external_id) db.content.posts) ≡ true
      → length (upsert_post ports.new_id (post_of ports p item) db).1.content.posts
        ≡ length db.content.posts
  upsert-length p item db h = elim (Bool-cases (is_blank (handle_of item))) [
    | inl b ↦ ap (λ c. length c.posts) (blank-content (post_of ports p item) db b)
    | inr b ↦
        effect-length (post_of ports p item) db.content _ _ (ground (arith, b, h))
          (upsert_post-PostEffect ports.new_id (post_of ports p item) db)
  ]

  pub comment-posts :
      (p : Platform) (item : ScrapeItem) (res : IngestResult) (db : Db)
      → (ingest_comment ports p item res db).1.content.posts ≡ db.content.posts
  unfolding ingest_comment
  comment-posts p item res db =
      ap (λ d. d.content.posts) (after_comment-db res _)
      ∙ (bound-posts p item (parent_of ports p item db)
          ∙ ap (λ c. c.posts) (parent-content-of p item db))
    where
      parent-content-of :
          (p : Platform) (item : ScrapeItem) (db : Db)
          → (parent_of ports p item db).1.content ≡ db.content
      parent-content-of p item db =
          parent-content ports (λ s. Unit) (IsSettled item) (IsSettled-IsKept item) p item db
            (is_empty item.post_id) refl

  pub item-length :
      (x : Option Platform) (item : ScrapeItem) (res : IngestResult) (db : Db)
      → settled_on x item db.content.posts ≡ true
      → length (ingest_known ports x item res db).1.content.posts ≡ length db.content.posts
  unfolding ingest_post
  item-length none item res db h = refl
  item-length (some p) item res db h = elim (Bool-cases (is_empty item.external_id)) [
    | inl e ↦ rw e refl
    | inr e ↦ elim (Bool-cases (is_comment ports item)) [
      | inl c ↦ rw (e, c) (ap length (comment-posts p item res db))
      | inr c ↦
          rw (e, c)
            (ap length
                (after_post-posts item res (upsert_post ports.new_id (post_of ports p item) db))
              ∙ upsert-length p item db (ground (arith, e, c, h)))
    ]
  ]

  -- A call that cannot fail any more.
  abbrev pub Calm : Db → Type 0
  Calm db = db.faults ≡ []

  pub upsert_post-Calm : (new : Post) (db : Db) → Calm db → Calm (upsert_post ports.new_id new db).1
  unfolding upsert_post
  upsert_post-Calm new db h = ground (arith, h)

  pub upsert_comment-Calm :
      (new : Comment) (db : Db) → Calm db → Calm (upsert_comment ports.new_id new db).1
  unfolding upsert_comment
  upsert_comment-Calm new db h = ground (arith, h)

  pub sample-Calm : (s : MetricSnapshot) (db : Db) → Calm db → Calm (create_metric_snapshot s db).1
  unfolding create_metric_snapshot
  sample-Calm s db h = ground (arith, h)

  pub lookup-Calm :
      (p : Platform) (e : String) (db : Db) → Calm db → Calm (get_post_by_external_id p e db).1
  unfolding get_post_by_external_id
  lookup-Calm p e db h = ground (arith, h)

  pub list-Calm : (run : ℕ) (db : Db) → Calm db → Calm (list_raw_payloads run db).1
  unfolding list_raw_payloads
  list-Calm run db h = ground (arith, h)
