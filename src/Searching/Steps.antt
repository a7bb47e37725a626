-- ===== src/Searching/Steps.antt =====
-- scrape_keyword.go: what the steps of a search do to the rows of the batches.
use jg_smm.Prelude.{ℕ, ◌≡◌, refl, ◌∙◌, ◌⊎◌, Bool, List, [], Option, none, some, String, arith}
use jg_smm.Prelude.Table.{update_where}
use jg_smm.Domain.Status.{Platform}
use jg_smm.Domain.Content.{KeywordBatch, ApifyRun, Content}
use jg_smm.Store.{Db, Result, ok, err}
use jg_smm.Store.Posts.{create_apify_run, update_apify_run, create_raw_payload, return_run}
use jg_smm.Store.Posts.Effects.{PostEffect-batches, CommentEffect-batches, SampleEffect-batches}
use jg_smm.Store.Keywords.{
  has_batch_id, updated_batch, update_keyword_batch, get_keyword_batch, create_keyword_batch_post,
}
use jg_smm.Domain.Datasets.{Window}
use jg_smm.Ingesting.{IngestPorts, IngestResult, ingest_run}
use jg_smm.Ingesting.Rule.{IsKept, Left, ingest_run_rule}
use jg_smm.Ingesting.Keys.{all_good}

abbrev pub batches_of : Db → List KeywordBatch
batches_of db = db.content.keyword_batches

abbrev SameBatches : List KeywordBatch → IngestResult → Content → Type 0
SameBatches rows res c = c.keyword_batches ≡ rows

SameBatches-IsKept : (rows : List KeywordBatch) → IsKept (λ s. Unit) (SameBatches rows)
SameBatches-IsKept rows = record {
  at_post = λ res c c' new p h e. PostEffect-batches new c c' (ok p) e ∙ h;
  at_comment = λ res c c' new m h e. CommentEffect-batches new c c' (ok m) e ∙ h;
  at_sample = λ res c c' s q h e. SampleEffect-batches s c c' (ok tt) e ∙ h;
  at_bytes = λ res c raw h. h;
}

Left-SameBatches :
    (ports : IngestPorts) (rows : List KeywordBatch) (x : Result IngestResult × Db)
    → Left ports (λ s. Unit) (SameBatches rows) (SameBatches-IsKept rows) x
    → batches_of x.1 ≡ rows
Left-SameBatches ports rows (ok res, db) h = h
Left-SameBatches ports rows (err e, db) h = h

pub ingest_run-batches :
    (ports : IngestPorts) (platform : Option Platform) (w : Window) (run : ℕ) (db : Db)
    → batches_of (ingest_run ports platform w run db).1 ≡ batches_of db
ingest_run-batches ports platform w run db =
    Left-SameBatches ports (batches_of db) (ingest_run ports platform w run db) (
      ingest_run_rule ports (λ s. Unit) (SameBatches (batches_of db))
        (SameBatches-IsKept (batches_of db)) platform w run db
        (λ raw. all_good ports (SameBatches (batches_of db)) (SameBatches-IsKept (batches_of db)) _)
        refl)

pub create_apify_run-batches :
    (new_id : Db → ℕ) (r : ApifyRun) (db : Db)
    → batches_of (create_apify_run new_id r db).1 ≡ batches_of db
unfolding create_apify_run
create_apify_run-batches new_id r db = ground arith

return_run-db : (x : Option ApifyRun) (db : Db) → (return_run x db).1 ≡ db
return_run-db none db = refl
return_run-db (some r) db = refl

pub update_apify_run-batches :
    (r : ApifyRun) (b : Bool) (db : Db) → batches_of (update_apify_run r b db).1 ≡ batches_of db
unfolding update_apify_run
update_apify_run-batches r b db = ground arith

pub create_raw_payload-batches :
    (run : ℕ) (key : String) (db : Db)
    → batches_of (create_raw_payload run key db).1 ≡ batches_of db
unfolding create_raw_payload
create_raw_payload-batches run key db = ground arith

pub create_keyword_batch_post-batches :
    (i p : ℕ) (db : Db) → batches_of (create_keyword_batch_post i p db).1 ≡ batches_of db
unfolding create_keyword_batch_post
create_keyword_batch_post-batches i p db = ground arith

pub get_keyword_batch-batches :
    (i : ℕ) (db : Db) → batches_of (get_keyword_batch i db).1 ≡ batches_of db
unfolding get_keyword_batch
get_keyword_batch-batches i db = ground arith

-- A later state in which no call is to fail if none was before.
abbrev pub StaysCalm : Db → Db → Type 0
StaysCalm db db' = db.faults ≡ [] → db'.faults ≡ []

pub create_apify_run-calm :
    (new_id : Db → ℕ) (r : ApifyRun) (db : Db) → StaysCalm db (create_apify_run new_id r db).1
unfolding create_apify_run
create_apify_run-calm new_id r db h = ground (arith, h)

pub update_apify_run-calm :
    (r : ApifyRun) (b : Bool) (db : Db) → StaysCalm db (update_apify_run r b db).1
unfolding update_apify_run
update_apify_run-calm r b db h = ground (arith, h)

pub create_raw_payload-calm :
    (run : ℕ) (key : String) (db : Db) → StaysCalm db (create_raw_payload run key db).1
unfolding create_raw_payload
create_raw_payload-calm run key db h = ground (arith, h)

pub create_keyword_batch_post-calm :
    (i p : ℕ) (db : Db) → StaysCalm db (create_keyword_batch_post i p db).1
unfolding create_keyword_batch_post
create_keyword_batch_post-calm i p db h = ground (arith, h)

pub get_keyword_batch-calm : (i : ℕ) (db : Db) → StaysCalm db (get_keyword_batch i db).1
unfolding get_keyword_batch
get_keyword_batch-calm i db h = ground (arith, h)

pub update_keyword_batch-calm :
    (b : KeywordBatch) (db : Db) → StaysCalm db (update_keyword_batch b db).1
unfolding update_keyword_batch
update_keyword_batch-calm b db h = ground (arith, h)

-- An update of a batch leaves the rows, or rewrites those of its id, as it does where no call fails.
pub update_keyword_batch-rows :
    (b : KeywordBatch) (db : Db)
    → (batches_of (update_keyword_batch b db).1 ≡ batches_of db)
      ⊎ (batches_of (update_keyword_batch b db).1
          ≡ update_where (has_batch_id b.id) (updated_batch b db.now) (batches_of db))
unfolding update_keyword_batch
update_keyword_batch-rows b db = ground arith

pub update_keyword_batch-calm_rows :
    (b : KeywordBatch) (db : Db)
    → db.faults ≡ []
    → batches_of (update_keyword_batch b db).1
      ≡ update_where (has_batch_id b.id) (updated_batch b db.now) (batches_of db)
unfolding update_keyword_batch
update_keyword_batch-calm_rows b db h = ground (arith, h)
