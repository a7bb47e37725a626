-- ===== src/Ingesting/Samples.antt =====
-- scrape_ingestor.go: what the samples of metrics show after an ingestion.
use jg_smm.Prelude.{
  ℕ, zero, ◌≡◌, refl, ap, ◌∙◌, Bool, true, false, not, ◌&&◌, List, [], ◌∷◌, ◌++◌, Option, none,
  some, count, arith, All,
}
use jg_smm.Prelude.Int.{ℤ, pos}
use jg_smm.Domain.Status.{instagram, threads}
use jg_smm.Domain.Content.{MetricSnapshot, Content}
use jg_smm.Store.{Db, Result, ok, err}
use jg_smm.Store.Posts.Effects.{SampleEffect, PostEffect-others, CommentEffect-others}
use jg_smm.Domain.Datasets.{ScrapeItem, Window}
use jg_smm.Parsing.Counts.{
  Pointed, AllPointed, metrics_int-pointer, metrics_int_ptr-pointer, parse_items-AllPointed,
}
use jg_smm.Ingesting.{IngestResult, IngestPorts, ingest_run}
use jg_smm.Ingesting.Rule.{IsKept, IsGood, GoodItems, Left, ingest_run_rule}

abbrev pub is_zero_count : ℤ → Bool
is_zero_count (pos zero) = true
is_zero_count _ = false

abbrev pub is_unknown : Option ℤ → Bool
is_unknown none = true
is_unknown (some n) = false

-- A sample in which some number is known and not 0.
abbrev pub shows : MetricSnapshot → Bool
shows s = not (
    is_zero_count s.views
    && (is_zero_count s.likes
        && (is_zero_count s.comments
            && (is_zero_count s.shares && (is_unknown s.reach && is_unknown s.reels_views)))))

abbrev Shown : ℕ → IngestResult → Content → Type 0
Shown n res c = count shows c.snapshots ≡ n

abbrev IsMute : MetricSnapshot → Type 0
IsMute s = shows s ≡ false

count-mute :
    (xs : List MetricSnapshot) (s : MetricSnapshot)
    → IsMute s
    → count shows (xs ++ (s ∷ [])) ≡ count shows xs
count-mute [] s h = ground (arith, h)
count-mute (x ∷ xs) s h = ground (arith, count-mute xs s h)

sample-Shown :
    (n : ℕ) (c c' : Content) (s : MetricSnapshot)
    → IsMute s
    → count shows c.snapshots ≡ n
    → SampleEffect s c (ok tt) c'
    → count shows c'.snapshots ≡ n
sample-Shown n c c' s q h (SampleEffect.added now) =
    count-mute c.snapshots (record s { ts = now }) q ∙ h

Shown-IsKept : (n : ℕ) → IsKept IsMute (Shown n)
Shown-IsKept n = record {
  at_post = λ res c c' new p h e. ap (count shows) (PostEffect-others new c c' (ok p) e).1.0 ∙ h;
  at_comment =
      λ res c c' new m h e. ap (count shows) (CommentEffect-others new c c' (ok m) e).1.0 ∙ h;
  at_sample = λ res c c' s q h e. sample-Shown n c c' s q h e;
  at_bytes = λ res c raw h. h;
}

-- The samples of an item with pointed numbers show nothing.
sample-IsMute :
    (ports : IngestPorts) (n : ℕ) (item : ScrapeItem)
    → Pointed item
    → IsGood ports IsMute (Shown n) (Shown-IsKept n) item
sample-IsMute ports n item h post now =
    rw
      (
        metrics_int-pointer ports.decoders item.metrics
            ("views" ∷ ("viewCount" ∷ ("playCount" ∷ []))) h,
        metrics_int-pointer ports.decoders item.metrics ("likes" ∷ ("likeCount" ∷ [])) h,
        metrics_int-pointer ports.decoders item.metrics ("comments" ∷ ("commentCount" ∷ [])) h,
        metrics_int-pointer ports.decoders item.metrics
            ("shares" ∷ ("shareCount" ∷ ("retweetCount" ∷ []))) h,
        metrics_int_ptr-pointer ports.decoders item.metrics ("reach" ∷ ("impressions" ∷ [])) h,
      )
      refl

all-IsMute :
    (ports : IngestPorts) (n : ℕ) (items : List ScrapeItem)
    → All Pointed items
    → All (IsGood ports IsMute (Shown n) (Shown-IsKept n)) items
all-IsMute ports n [] h = tt
all-IsMute ports n (item ∷ items) (p, h) =
    (sample-IsMute ports n item p, all-IsMute ports n items h)

items-IsMute :
    (ports : IngestPorts) (n : ℕ) (x : Option (List ScrapeItem))
    → AllPointed x
    → GoodItems ports IsMute (Shown n) (Shown-IsKept n) x
items-IsMute ports n none h = tt
items-IsMute ports n (some items) h = all-IsMute ports n items h

Left-Shown :
    (ports : IngestPorts) (n : ℕ) (x : Result IngestResult × Db)
    → Left ports IsMute (Shown n) (Shown-IsKept n) x
    → count shows x.1.content.snapshots ≡ n
Left-Shown ports n (ok res, db) h = h
Left-Shown ports n (err e, db) h = h

-- Whatever the datasets of the two actors hold and whichever calls fail, an ingestion for Instagram or
-- for Threads adds no sample in which any number is known and not 0: the parsers keep the numbers
-- behind pointers, which `numeric` reads as absent.
pub ingest_run-samples :
    (ports : IngestPorts) (w : Window) (run : ℕ) (db : Db)
    → (count shows (ingest_run ports (some instagram) w run db).1.content.snapshots
        ≡ count shows db.content.snapshots)
      × (count shows (ingest_run ports (some threads) w run db).1.content.snapshots
          ≡ count shows db.content.snapshots)
ingest_run-samples ports w run db =
    let n = count shows db.content.snapshots in
    (
      Left-Shown ports n (ingest_run ports (some instagram) w run db) (
          ingest_run_rule ports IsMute (Shown n) (Shown-IsKept n) (some instagram) w run db
            (λ raw. items-IsMute ports n _ (parse_items-AllPointed ports.decoders raw w).0) refl),
      Left-Shown ports n (ingest_run ports (some threads) w run db) (
          ingest_run_rule ports IsMute (Shown n) (Shown-IsKept n) (some threads) w run db
            (λ raw. items-IsMute ports n _ (parse_items-AllPointed ports.decoders raw w).1) refl),
    )
