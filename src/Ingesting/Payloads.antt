-- ===== src/Ingesting/Payloads.antt =====
-- scrape_ingestor.go: the payloads of a run settle their items, and settled ones bring no new post.
use jg_smm.Prelude.{ℕ, ◌≡◌, refl, ◌∙◌, List, [], ◌∷◌, Option, none, some, String, length, All}
use jg_smm.Domain.Status.{Platform}
use jg_smm.Domain.Content.{Post}
use jg_smm.Store.{Db}
use jg_smm.Domain.Datasets.{ScrapeItem, Window}
use jg_smm.Parsing.{parse_items}
use jg_smm.Ingesting.{
  IngestResult, IngestPorts, with_bytes, ingest_item, ingest_items, ingest_parsed, ingest_raw,
  ingest_keys,
}
use jg_smm.Ingesting.Rule.{items-Holds, raw-Holds}
use jg_smm.Ingesting.Keys.{all_good}
use jg_smm.Ingesting.Settled.{IsSettled, IsSettled-IsKept, Calm}
use jg_smm.Ingesting.Items.{AllSettled, ParsedSettled, item-Calm, item-settled, items-length}

module _ (ports : IngestPorts) where
  all_any : (items : List ScrapeItem) → All (λ i. (post now : ℕ) → Unit {0}) items
  all_any [] = tt
  all_any (item ∷ items) = ((λ post now. tt), all_any items)

  -- Where no call fails, a list of items is settled by its ingestion.
  items-settled :
      (items : List ScrapeItem) (res : IngestResult) (db : Db)
      → Calm ports db
      → AllSettled ports items (ingest_items ports items (res, db)).1.content.posts
        × Calm ports (ingest_items ports items (res, db)).1
  unfolding ingest_items ingest_item
  items-settled [] res db h = (tt, h)
  items-settled (item ∷ items) res db h =
      let (res', db') = ingest_item ports item res db in
      let calm = item-Calm ports item.platform item res db h in
      let (rest, end) = items-settled items res' db' calm in
      (
        (
          items-Holds ports (λ s. Unit) (IsSettled ports item) (IsSettled-IsKept ports item) items
              (ingest_item ports item res db) (all_any items)
              (item-settled ports item.platform item res db h),
          rest,
        ),
        end,
      )

  module _ (platform : Option Platform) (w : Window) (get : String → Option (List ℕ)) where
    abbrev pub parsed : List ℕ → Option (List ScrapeItem)
    parsed raw = parse_items ports.decoders platform raw w

    abbrev pub RawSettled : Option (List ℕ) → List Post → Type 0
    RawSettled none posts = Unit
    RawSettled (some raw) posts = ParsedSettled ports (parsed raw) posts

    abbrev pub KeysSettled : List String → List Post → Type 0
    KeysSettled keys posts = All (λ k. RawSettled (get k) posts) keys

    -- Settled items stay settled through the ingestion of other payloads.
    keep-items :
        (items : List ScrapeItem) (raw : Option (List ℕ)) (x : IngestResult × Db)
        → AllSettled ports items x.1.content.posts
        → AllSettled ports items (ingest_raw ports platform w raw x).1.content.posts
    keep-items [] raw x h = tt
    keep-items (item ∷ items) raw x (s, h) = (
      raw-Holds ports (λ s. Unit) (IsSettled ports item) (IsSettled-IsKept ports item) platform w
          raw x (λ r. all_good ports (IsSettled ports item) (IsSettled-IsKept ports item) _) s,
      keep-items items raw x h,
    )

    keep-parsed :
        (y : Option (List ScrapeItem)) (raw : Option (List ℕ)) (x : IngestResult × Db)
        → ParsedSettled ports y x.1.content.posts
        → ParsedSettled ports y (ingest_raw ports platform w raw x).1.content.posts
    keep-parsed none raw x h = tt
    keep-parsed (some items) raw x h = keep-items items raw x h

    keep-raw :
        (r raw : Option (List ℕ)) (x : IngestResult × Db)
        → RawSettled r x.1.content.posts
        → RawSettled r (ingest_raw ports platform w raw x).1.content.posts
    keep-raw none raw x h = tt
    keep-raw (some bytes) raw x h = keep-parsed (parsed bytes) raw x h

    keep-keys :
        (keys : List String) (raw : Option (List ℕ)) (x : IngestResult × Db)
        → KeysSettled keys x.1.content.posts
        → KeysSettled keys (ingest_raw ports platform w raw x).1.content.posts
    keep-keys [] raw x h = tt
    keep-keys (k ∷ keys) raw x (s, h) = (keep-raw (get k) raw x s, keep-keys keys raw x h)

    keep-rest :
        (r : Option (List ℕ)) (keys : List String) (x : IngestResult × Db)
        → RawSettled r x.1.content.posts
        → RawSettled r (ingest_keys ports platform w get keys x).1.content.posts
    unfolding ingest_keys
    keep-rest r [] x h = h
    keep-rest r (k ∷ keys) x h = keep-rest r keys _ (keep-raw r (get k) x h)

    -- Where no call fails, what is read of the keys is settled by their ingestion.
    raw-settled :
        (raw : Option (List ℕ)) (res : IngestResult) (db : Db)
        → Calm ports db
        → RawSettled raw (ingest_raw ports platform w raw (res, db)).1.content.posts
          × Calm ports (ingest_raw ports platform w raw (res, db)).1
    raw-settled none res db h = (tt, h)
    raw-settled (some raw) res db h = go (parsed raw)
      where
        go :
            (y : Option (List ScrapeItem))
            → ParsedSettled ports y (ingest_parsed ports y (with_bytes raw res, db)).1.content.posts
              × Calm ports (ingest_parsed ports y (with_bytes raw res, db)).1
        go none = (tt, h)
        go (some items) = items-settled items (with_bytes raw res) db h

    pub keys-settled :
        (keys : List String) (x : IngestResult × Db)
        → Calm ports x.1
        → KeysSettled keys (ingest_keys ports platform w get keys x).1.content.posts
          × Calm ports (ingest_keys ports platform w get keys x).1
    unfolding ingest_keys
    keys-settled [] x h = (tt, h)
    keys-settled (k ∷ keys) (res, db) h =
        let (s, calm) = raw-settled (get k) res db h in
        let (rest, end) = keys-settled keys (ingest_raw ports platform w (get k) (res, db)) calm in
        ((keep-rest (get k) keys _ s, rest), end)

    -- Settled keys bring no new post, whichever calls fail.
    raw-length :
        (raw : Option (List ℕ)) (x : IngestResult × Db)
        → RawSettled raw x.1.content.posts
        → length (ingest_raw ports platform w raw x).1.content.posts ≡ length x.1.content.posts
    raw-length none x h = refl
    raw-length (some raw) (res, db) h = go (parsed raw) h
      where
        go :
            (y : Option (List ScrapeItem))
            → ParsedSettled ports y db.content.posts
            → length (ingest_parsed ports y (with_bytes raw res, db)).1.content.posts
              ≡ length db.content.posts
        go none h = refl
        go (some items) h = items-length ports items (with_bytes raw res, db) h

    pub keys-length :
        (keys : List String) (x : IngestResult × Db)
        → KeysSettled keys x.1.content.posts
        → length (ingest_keys ports platform w get keys x).1.content.posts
          ≡ length x.1.content.posts
    unfolding ingest_keys
    keys-length [] x h = refl
    keys-length (k ∷ keys) x (s, h) =
        keys-length keys _ (keep-keys keys (get k) x h) ∙ raw-length (get k) x s
