-- ===== src/Ingesting/Items.antt =====
-- scrape_ingestor.go: an item that is ingested without a failing call is settled, and settled items
-- bring no new post.
use jg_smm.Prelude.{
  ℕ, ◌≡◌, refl, sym, ap, ◌∙◌, inl, inr, Bool, true, false, ◌||◌, List, [], ◌∷◌, Option, none, some,
  any, find, arith, Bool-cases, length, All,
}
use std.Path.{subst}
use jg_smm.Prelude.Text.{codes}
use jg_smm.Prelude.Table.{any-update_where}
use jg_smm.Domain.Status.{Platform}
use jg_smm.Domain.Content.{Post, Content}
use jg_smm.Store.{Db, Result, ok, err, is_ok, bind_result}
use jg_smm.Store.Texts.{same_text_refl}
use jg_smm.Store.Posts.{
  is_post_of, is_blank, upsert_post, upsert_comment, create_metric_snapshot,
  get_post_by_external_id, refreshed_post,
}
use jg_smm.Store.Posts.Effects.{PostEffect, upsert_post-PostEffect}
use jg_smm.Users.{is_empty}
use jg_smm.Domain.Datasets.{ScrapeItem}
use jg_smm.Ingesting.{
  IngestResult, IngestPorts, with_post, post_of, sample_of, after_post, comment_of, parent_of,
  id_of, is_comment, ingest_post, ingest_comment, ingest_known, ingest_item, ingest_items,
}
use jg_smm.Ingesting.Rule.{item-Holds}
use jg_smm.Ingesting.Settled.{
  handle_of, settled_on, settled, IsSettled, IsSettled-IsKept, sample-posts, after_post-posts,
  after_comment-db, item-length, Calm, upsert_post-Calm, upsert_comment-Calm, sample-Calm,
  lookup-Calm,
}

module _ (ports : IngestPorts) where
  after_post-Calm :
      (item : ScrapeItem) (res : IngestResult) (x : Result Post × Db)
      → Calm ports x.1
      → Calm ports (after_post ports item res x).1
  after_post-Calm item res (err e, db) h = h
  after_post-Calm item res (ok p, db) h =
      let s = sample_of ports p.id db.now item.metrics in
      subst (Calm ports) (sym (sample-posts ports (with_post p res) (create_metric_snapshot s db)))
        (sample-Calm ports s db h)

  found-Calm : (x : Result Post × Db) → Calm ports x.1 → Calm ports (bind_result x (id_of ports)).1
  found-Calm (ok p, db) h = h
  found-Calm (err e, db) h = h

  pub parent-Calm :
      (p : Platform) (item : ScrapeItem) (db : Db)
      → Calm ports db
      → Calm ports (parent_of ports p item db).1
  parent-Calm p item db h = elim (Bool-cases (is_empty item.post_id)) [
    | inl e ↦ rw e (
        found-Calm (get_post_by_external_id p item.comment_of db)
          (lookup-Calm ports p item.comment_of db h))
    | inr e ↦ rw e h
  ]

  bound-Calm :
      (p : Platform) (item : ScrapeItem) (x : Result ℕ × Db)
      → Calm ports x.1
      → Calm ports
          (bind_result x (λ post. upsert_comment ports.new_id (comment_of ports p item post))).1
  bound-Calm p item (err e, db) h = h
  bound-Calm p item (ok post, db) h = upsert_comment-Calm ports (comment_of ports p item post) db h

  comment-Calm :
      (p : Platform) (item : ScrapeItem) (res : IngestResult) (db : Db)
      → Calm ports db
      → Calm ports (ingest_comment ports p item res db).1
  unfolding ingest_comment
  comment-Calm p item res db h =
      subst (Calm ports) (sym (after_comment-db ports res _))
        (bound-Calm p item (parent_of ports p item db) (parent-Calm p item db h))

  pub item-Calm :
      (x : Option Platform) (item : ScrapeItem) (res : IngestResult) (db : Db)
      → Calm ports db
      → Calm ports (ingest_known ports x item res db).1
  unfolding ingest_post
  item-Calm none item res db h = h
  item-Calm (some p) item res db h = elim (Bool-cases (is_empty item.external_id)) [
    | inl e ↦ rw e h
    | inr e ↦ elim (Bool-cases (is_comment ports item)) [
      | inl c ↦ rw (e, c) (comment-Calm p item res db h)
      | inr c ↦
          rw (e, c)
            (after_post-Calm item res (upsert_post ports.new_id (post_of ports p item) db)
              (upsert_post-Calm ports (post_of ports p item) db h))
    ]
  ]

  -- Where no call fails, the post of an item that is not refused is stored.
  upsert-ok :
      (new : Post) (db : Db)
      → Calm ports db
      → is_blank new.author_handle ≡ false
      → is_ok (upsert_post ports.new_id new db).0 ≡ true
  unfolding upsert_post
  upsert-ok new db h b = ground (arith, h, b)

  find-any : (q : Post → Bool) (ps : List Post) (p : Post) → find q ps ≡ some p → any q ps ≡ true
  find-any q [] p h = ground (arith, h)
  find-any q (x ∷ ps) p h = ground (arith, h, find-any q ps p)

  own_key : (p : Post) → is_post_of p.platform p.external_id p ≡ true
  own_key p = ground (arith, same_text_refl (codes p.external_id))

  ok-any :
      (new : Post) (c c' : Content) (r : Result Post)
      → is_ok r ≡ true
      → PostEffect new c r c'
      → any (is_post_of new.platform new.external_id) c'.posts ≡ true
  ok-any new c c' r h (PostEffect.failed e) = ground (arith, h)
  ok-any new c c' r h (PostEffect.refreshed old now e) =
      any-update_where (is_post_of new.platform new.external_id)
        (is_post_of new.platform new.external_id) (refreshed_post new now) c.posts (λ x. refl)
      ∙ find-any (is_post_of new.platform new.external_id) c.posts old e
  ok-any new c c' r h (PostEffect.added i now e) = ground (arith, own_key new)

  upsert-any :
      (p : Platform) (item : ScrapeItem) (db : Db)
      → Calm ports db
      → is_blank (handle_of item) ≡ false
      → any
          (is_post_of p item.external_id)
          (upsert_post ports.new_id (post_of ports p item) db).1.content.posts
        ≡ true
  upsert-any p item db h b =
      ok-any (post_of ports p item) db.content _ _ (upsert-ok (post_of ports p item) db h b)
        (upsert_post-PostEffect ports.new_id (post_of ports p item) db)

  or_left : (a b : Bool) → a ≡ true → (a || b) ≡ true
  or_left a b h = ground (arith, h)

  or_right : (a b : Bool) → b ≡ true → (a || b) ≡ true
  or_right a b h = ground (arith, h)

  post-settled :
      (p : Platform) (item : ScrapeItem) (res : IngestResult) (db : Db)
      → Calm ports db
      → (is_blank (handle_of item)
          || any (is_post_of p item.external_id) (ingest_post ports p item res db).1.content.posts)
        ≡ true
  unfolding ingest_post
  post-settled p item res db h = elim (Bool-cases (is_blank (handle_of item))) [
    | inl b ↦ or_left (is_blank (handle_of item)) _ b
    | inr b ↦ or_right (is_blank (handle_of item)) _ (
        ap (any (is_post_of p item.external_id)) (after_post-posts ports item res _)
        ∙ upsert-any p item db h b)
  ]

  pub item-settled :
      (x : Option Platform) (item : ScrapeItem) (res : IngestResult) (db : Db)
      → Calm ports db
      → settled_on ports x item (ingest_known ports x item res db).1.content.posts ≡ true
  item-settled none item res db h = refl
  item-settled (some p) item res db h = elim (Bool-cases (is_empty item.external_id)) [
    | inl e ↦ rw e refl
    | inr e ↦ elim (Bool-cases (is_comment ports item)) [
      | inl c ↦ rw (e, c) refl
      | inr c ↦ rw (e, c) (post-settled p item res db h)
    ]
  ]

  -- A list of items, an option of one, a key, and a list of keys, as settled as their items.
  abbrev pub AllSettled : List ScrapeItem → List Post → Type 0
  AllSettled items posts = All (λ item. settled ports item posts ≡ true) items

  abbrev pub ParsedSettled : Option (List ScrapeItem) → List Post → Type 0
  ParsedSettled none posts = Unit
  ParsedSettled (some items) posts = AllSettled items posts

  keep-settled :
      (item : ScrapeItem) (x : ScrapeItem) (res : IngestResult) (db : Db)
      → settled ports item db.content.posts ≡ true
      → settled ports item (ingest_item ports x res db).1.content.posts ≡ true
  keep-settled item x res db h =
      item-Holds ports (λ s. Unit) (IsSettled ports item) (IsSettled-IsKept ports item) x res db
        (λ post now. tt) h

  keep-AllSettled :
      (items : List ScrapeItem) (x : ScrapeItem) (res : IngestResult) (db : Db)
      → AllSettled items db.content.posts
      → AllSettled items (ingest_item ports x res db).1.content.posts
  keep-AllSettled [] x res db h = tt
  keep-AllSettled (item ∷ items) x res db (s, h) =
      (keep-settled item x res db s, keep-AllSettled items x res db h)

  -- Settled items bring no new post, whichever calls fail.
  pub items-length :
      (items : List ScrapeItem) (x : IngestResult × Db)
      → AllSettled items x.1.content.posts
      → length (ingest_items ports items x).1.content.posts ≡ length x.1.content.posts
  unfolding ingest_items ingest_item
  items-length [] x h = refl
  items-length (item ∷ items) (res, db) (s, h) =
      items-length items (ingest_item ports item res db) (keep-AllSettled items item res db h)
      ∙ item-length ports item.platform item res db s
