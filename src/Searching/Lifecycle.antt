-- ===== src/Searching/Lifecycle.antt =====
-- scrape_keyword.go, processBatch: how a batch ends, and that no other batch is written.
use jg_smm.Prelude.{
  ℕ, zero, suc, ◌≡◌, refl, inl, inr, Bool, true, false, ltb, ◌||◌, ◌==◌, List, [], ◌∷◌, some,
  String, arith, Bool-cases,
}
use jg_smm.Prelude.Text.{codes}
use jg_smm.Domain.Content.{KeywordBatch, ApifyRun, running}
use jg_smm.Store.{Db, Err, Result, ok, err}
use jg_smm.Store.Workers.{same_text}
use jg_smm.Store.Posts.{create_apify_run, update_apify_run, create_raw_payload}
use jg_smm.Store.Keywords.{update_keyword_batch, create_keyword_batch_post}
use jg_smm.Ingesting.{IngestResult, ingest_run}
use jg_smm.Ingesting.Replay.{ingest_run-Calm}
use jg_smm.Domain.Searches.{SearchInput, SearchOutput}
use jg_smm.Searching.{
  SearchPorts, RunEnd, done, broken, batch_change, update_quietly, fail_batch, point_all, stamp_of,
  after_ingest, ingest_found, after_search, search_once, join_all, finish_batch, open_run, input_of,
  after_try, after_open, try_search, after_fetch,
}
use jg_smm.Searching.Steps.{
  batches_of, StaysCalm, ingest_run-batches, create_apify_run-batches, update_apify_run-batches,
  create_raw_payload-batches, create_keyword_batch_post-batches, create_apify_run-calm,
  update_apify_run-calm, create_raw_payload-calm, create_keyword_batch_post-calm,
}

-- A predicate that a call which leaves the rows of the batches keeps, and that an update of batch i
-- keeps.
pub record IsStable (i : ℕ) (P : Db → Type 0) : Type 0 where
  pub at_same : (db db' : Db) → batches_of db' ≡ batches_of db → StaysCalm db db' → P db → P db'
  pub at_update : (b : KeywordBatch) (db : Db) → b.id ≡ i → P db → P (update_keyword_batch b db).1

module _ (ports : SearchPorts) (i : ℕ) (P : Db → Type 0) (stable : IsStable i P) where
  point_all-P : (run : ℕ) (keys : List String) (db : Db) → P db → P (point_all ports run keys db)
  unfolding point_all
  point_all-P run [] db h = h
  point_all-P run (key ∷ keys) db h = point_all-P run keys (create_raw_payload run key db).1 (
      stable.at_same db (create_raw_payload run key db).1 (create_raw_payload-batches run key db)
        (create_raw_payload-calm run key db) h)

  pub join_all-P : (j : ℕ) (ids : List ℕ) (db : Db) → P db → P (join_all ports j ids db)
  unfolding join_all
  join_all-P j [] db h = h
  join_all-P j (p ∷ ids) db h = join_all-P j ids (create_keyword_batch_post j p db).1 (
      stable.at_same db (create_keyword_batch_post j p db).1
        (create_keyword_batch_post-batches j p db) (create_keyword_batch_post-calm j p db) h)

  after_ingest-P : (x : Result IngestResult × Db) → P x.1 → P (after_ingest ports x).1
  after_ingest-P (ok res, db) h = h
  after_ingest-P (err e, db) h = h

  ingest_found-P :
      (input : SearchInput) (out : SearchOutput) (db : Db)
      → P db
      → P (ingest_found ports input out db).1
  ingest_found-P input out db h =
      let run = input.run_id in
      let stamp = stamp_of ports run out in
      let db1 = (update_apify_run stamp true db).1 in
      let db2 = point_all ports run out.item_keys db1 in
      let read = ingest_run ports.ingest (some input.platform) input.window run db2 in
      let stamped =
        stable.at_same db db1 (update_apify_run-batches stamp true db)
          (update_apify_run-calm stamp true db) h in
      after_ingest-P read (
        stable.at_same db2 read.1
          (ingest_run-batches ports.ingest (some input.platform) input.window run db2)
          (ingest_run-Calm ports.ingest (some input.platform) input.window run db2)
          (point_all-P run out.item_keys db1 stamped))

  after_search-P :
      (input : SearchInput) (x : Result SearchOutput) (db : Db)
      → P db
      → P (after_search ports input x db).1
  after_search-P input (err e) db h = h
  after_search-P input (ok out) db h =
      elim (Bool-cases (same_text (codes out.status) (codes "SUCCEEDED"))) [
        | inl e ↦ rw e (ingest_found-P input out db h)
        | inr e ↦ rw e h
      ]

  pub search_once-P : (input : SearchInput) (db : Db) → P db → P (search_once ports input db).1
  unfolding search_once
  search_once-P input db h = after_search-P input (ports.search input db) db h

  -- What the tries reach, when each failure and each success of the batch reaches it.
  module _ (F : Db → Type 0)
      (at_failure : (msg : String) (db : Db) → P db → F (fail_batch ports i msg db))
      (at_success : (run : ℕ) (res : IngestResult) (db : Db)
        → P db
        → F (finish_batch ports i run res db)) where
    after_try-F :
        (b : KeywordBatch) (run : ℕ) (last : Bool) (next : Db → Db) (x : RunEnd × Db)
        → b.id ≡ i
        → (last ≡ false → (db : Db) → P db → F (next db))
        → P x.1
        → F (after_try ports b run last next x)
    after_try-F b run last next (broken msg, db) e n h = rw e (at_failure msg db h)
    after_try-F b run last next (done res, db) e n h =
        elim (Bool-cases (ltb 0 res.posts_upserted || last)) [
          | inl t ↦ rw (t, e) (at_success run res db h)
          | inr t ↦ rw t (n (ground (arith, t)) db h)
        ]

    after_open-F :
        (b : KeywordBatch) (last : Bool) (next : Db → Db) (x : Result ApifyRun × Db)
        → b.id ≡ i
        → (last ≡ false → (db : Db) → P db → F (next db))
        → P x.1
        → F (after_open ports b last next x)
    after_open-F b last next (err r, db) e n h =
        rw e (at_failure (ports.describe "create run" r) db h)
    after_open-F b last next (ok run, db) e n h =
        let change = record (batch_change b.id running) { apify_run_id = some run.id } in
        let db' = update_quietly ports change db in
        after_try-F b run.id last next (search_once ports (input_of ports b run.id) db') e n
          (search_once-P (input_of ports b run.id) db' (stable.at_update change db e h))

    opened-P :
        (b : KeywordBatch) (db : Db)
        → P db
        → P (create_apify_run ports.ingest.new_id (open_run ports b.actor_id) db).1
    opened-P b db h =
        stable.at_same db (create_apify_run ports.ingest.new_id (open_run ports b.actor_id) db).1
          (create_apify_run-batches ports.ingest.new_id (open_run ports b.actor_id) db)
          (create_apify_run-calm ports.ingest.new_id (open_run ports b.actor_id) db) h

    pub try_search-F :
        (left : ℕ) (b : KeywordBatch) (db : Db)
        → b.id ≡ i
        → P db
        → F (try_search ports (suc left) b db)
    unfolding try_search
    try_search-F zero b db e h =
        let opened = create_apify_run ports.ingest.new_id (open_run ports b.actor_id) db in
        after_open-F b true (try_search ports zero b) opened e (λ c. ground (arith, c))
          (opened-P b db h)
    try_search-F (suc left) b db e h =
        let opened = create_apify_run ports.ingest.new_id (open_run ports b.actor_id) db in
        after_open-F b (suc left == 0) (try_search ports (suc left) b) opened e
          (λ c db' h'. try_search-F left b db' e h') (opened-P b db h)

    pub after_fetch-F :
        (b : KeywordBatch) (x : Result KeywordBatch × Db)
        → b.id ≡ i
        → ((row : KeywordBatch) → x.0 ≡ ok row → row.id ≡ i)
        → ((e : Err) → x.0 ≡ err e → P x.1 → F x.1)
        → P x.1
        → F (after_fetch ports b x)
    after_fetch-F b (err r, db) e own bad h = bad r refl h
    after_fetch-F b (ok row, db) e own bad h =
        let db1 = update_quietly ports (record row { status = running }) db in
        let db2 = update_quietly ports (batch_change b.id running) db1 in
        try_search-F 1 b db2 e (
          stable.at_update (batch_change b.id running) db1 e
            (stable.at_update (record row { status = running }) db (own row refl) h))
