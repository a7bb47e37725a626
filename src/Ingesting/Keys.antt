-- ===== src/Ingesting/Keys.antt =====
-- scrape_ingestor.go: one row for each pair of a platform and an external id.
use jg_smm.Prelude.{
  ℕ, ◌≤◌, ◌≡◌, refl, sym, inl, inr, Bool, true, ◌&&◌, ◌==◌, List, [], ◌∷◌, Option, none, some,
  String, count, arith, Bool-cases, count-find-none,
}
use std.Path.{subst}
use jg_smm.Prelude.Text.{codes}
use jg_smm.Prelude.Table.{count-update_where}
use jg_smm.Domain.Status.{Platform, platform_number}
use jg_smm.Domain.Content.{Post, Comment, MetricSnapshot, Content}
use jg_smm.Store.{Db, Result, ok, err}
use jg_smm.Store.Workers.{same_text}
use jg_smm.Store.Texts.{same_text-≡}
use jg_smm.Store.Posts.{
  is_post_of, is_comment_of, post_row, comment_row, refreshed_post, refreshed_comment,
}
use jg_smm.Store.Posts.Effects.{
  PostEffect, CommentEffect, PostEffect-others, CommentEffect-others, SampleEffect-others,
}
use jg_smm.Domain.Datasets.{ScrapeItem, Window}
use jg_smm.Ingesting.{IngestResult, IngestPorts, ingest_run}
use jg_smm.Ingesting.Rule.{IsKept, GoodItems, Left, ingest_run_rule}

abbrev pub UniquePosts : List Post → Type 0
UniquePosts posts =
    (platform : Platform) (external_id : String) → count (is_post_of platform external_id) posts ≤ 1

abbrev pub UniqueComments : List Comment → Type 0
UniqueComments comments =
    (platform : Platform) (external_id : String)
    → count (is_comment_of platform external_id) comments ≤ 1

-- Rows that are found by a number and a text.
module _ {A : Type 0} (part : A → ℕ) (name : A → List ℕ) where
  abbrev keyed : ℕ → List ℕ → A → Bool
  keyed n cs x = part x == n && same_text (name x) cs

  keyed_parts : (n : ℕ) (cs : List ℕ) (x : A) → keyed n cs x ≡ true → (part x ≡ n) × (name x ≡ cs)
  keyed_parts n cs x h = (ground (arith, h), same_text-≡ (name x) cs (ground (arith, h)))

  -- A row whose key none has leaves the keys of the rows unique.
  add_keyed :
      (x : A) (xs : List A) (n : ℕ) (cs : List ℕ)
      → count (keyed (part x) (name x)) xs ≡ 0
      → count (keyed n cs) xs ≤ 1
      → count (keyed n cs) (x ∷ xs) ≤ 1
  add_keyed x xs n cs none_of h = elim (Bool-cases (keyed n cs x)) [
    | inl e ↦
        let (p, q) = keyed_parts n cs x e in
        let zero_of =
          subst (λ k. count (keyed n k) xs ≡ 0) q
            (subst (λ k. count (keyed k (name x)) xs ≡ 0) p none_of) in
        ground (arith, e, zero_of)
    | inr e ↦ ground (arith, e, h)
  ]

abbrev post_part : Post → ℕ
post_part p = platform_number p.platform

abbrev post_name : Post → List ℕ
post_name p = codes p.external_id

abbrev comment_part : Comment → ℕ
comment_part c = platform_number c.platform

abbrev comment_name : Comment → List ℕ
comment_name c = codes c.external_id

post-UniquePosts :
    (new : Post) (c c' : Content) (r : Result Post)
    → PostEffect new c r c'
    → UniquePosts c.posts
    → UniquePosts c'.posts
post-UniquePosts new c c' r (PostEffect.failed e) h platform external_id = h platform external_id
post-UniquePosts new c c' r (PostEffect.refreshed old now e) h platform external_id =
    subst (λ n. n ≤ 1)
      (sym (
        count-update_where (is_post_of platform external_id)
          (is_post_of new.platform new.external_id) (refreshed_post new now) c.posts (λ p. refl)))
      (h platform external_id)
post-UniquePosts new c c' r (PostEffect.added i now e) h platform external_id =
    add_keyed post_part post_name (post_row i now new) c.posts (platform_number platform)
      (codes external_id) (count-find-none (is_post_of new.platform new.external_id) c.posts e)
      (h platform external_id)

comment-UniqueComments :
    (new : Comment) (c c' : Content) (r : Result Comment)
    → CommentEffect new c r c'
    → UniqueComments c.comments
    → UniqueComments c'.comments
comment-UniqueComments new c c' r (CommentEffect.failed e) h platform external_id =
    h platform external_id
comment-UniqueComments new c c' r (CommentEffect.refreshed old now e) h platform external_id =
    subst (λ n. n ≤ 1)
      (sym (
        count-update_where (is_comment_of platform external_id)
          (is_comment_of new.platform new.external_id) (refreshed_comment new now) c.comments
          (λ m. refl)))
      (h platform external_id)
comment-UniqueComments new c c' r (CommentEffect.added i now e t) h platform external_id =
    add_keyed comment_part comment_name (comment_row i now new) c.comments
      (platform_number platform) (codes external_id)
      (count-find-none (is_comment_of new.platform new.external_id) c.comments e)
      (h platform external_id)

abbrev pub UniqueContent : Content → Type 0
UniqueContent c = UniquePosts c.posts × UniqueComments c.comments

abbrev AnySample : MetricSnapshot → Type 0
AnySample s = Unit

abbrev HasUnique : IngestResult → Content → Type 0
HasUnique res c = UniqueContent c

HasUnique-IsKept : IsKept AnySample HasUnique
HasUnique-IsKept = record {
  at_post = λ res c c' new p h e. (
    post-UniquePosts new c c' (ok p) e h.0,
    subst UniqueComments (sym (PostEffect-others new c c' (ok p) e).0) h.1,
  );
  at_comment = λ res c c' new m h e. (
    subst UniquePosts (sym (CommentEffect-others new c c' (ok m) e).0) h.0,
    comment-UniqueComments new c c' (ok m) e h.1,
  );
  at_sample = λ res c c' s q h e. (
    subst UniquePosts (sym (SampleEffect-others s c c' (ok tt) e).0) h.0,
    subst UniqueComments (sym (SampleEffect-others s c c' (ok tt) e).1.0) h.1,
  );
  at_bytes = λ res c raw h. h;
}

-- Where nothing is asked of the samples, every item is good.
pub all_good :
    (ports : IngestPorts) (P : IngestResult → Content → Type 0) (kept : IsKept (λ s. Unit) P)
    (x : Option (List ScrapeItem))
    → GoodItems ports (λ s. Unit) P kept x
all_good ports P kept none = tt
all_good ports P kept (some []) = tt
all_good ports P kept (some (item ∷ items)) = ((λ post now. tt), all_good ports P kept (some items))

Left-UniqueContent :
    (ports : IngestPorts) (x : Result IngestResult × Db)
    → Left ports AnySample HasUnique HasUnique-IsKept x
    → UniqueContent x.1.content
Left-UniqueContent ports (ok res, db) h = h
Left-UniqueContent ports (err e, db) h = h

-- No ingestion, whatever it reads and whichever calls fail, gives two posts or two comments the same
-- platform and external id, if there were none before.
pub ingest_run-UniqueContent :
    (ports : IngestPorts) (platform : Option Platform) (w : Window) (run : ℕ) (db : Db)
    → UniqueContent db.content
    → UniqueContent (ingest_run ports platform w run db).1.content
ingest_run-UniqueContent ports platform w run db h =
    Left-UniqueContent ports (ingest_run ports platform w run db) (
      ingest_run_rule ports AnySample HasUnique HasUnique-IsKept platform w run db
        (λ raw. all_good ports HasUnique HasUnique-IsKept _) h)
