-- ===== src/Ingesting/Replay.antt =====
-- scrape_ingestor.go: a run that is ingested again adds no post.
use jg_smm.Prelude.{
  ℕ, ◌≡◌, refl, sym, ap, ◌∙◌, List, [], Option, none, some, String, length, map, keep,
}
use std.Path.{subst}
use jg_smm.Domain.Status.{Platform}
use jg_smm.Domain.Content.{Content, RawPayload}
use jg_smm.Store.{Db, ok}
use jg_smm.Store.Posts.{list_raw_payloads, is_payload_of, key_of}
use jg_smm.Store.Posts.Effects.{PostEffect-others, CommentEffect-others, SampleEffect-others}
use jg_smm.Domain.Datasets.{Window}
use jg_smm.Ingesting.{IngestResult, IngestPorts, no_result, ingest_keys, ingest_run}
use jg_smm.Ingesting.Rule.{IsKept, keys-Holds}
use jg_smm.Ingesting.Keys.{all_good}
use jg_smm.Ingesting.Settled.{Calm}
use jg_smm.Ingesting.Payloads.{keys-settled, keys-length}

module _ (ports : IngestPorts) where
  -- No ingestion writes the pointers to the payloads.
  abbrev SamePayloads : List RawPayload → IngestResult → Content → Type 0
  SamePayloads ps res c = c.payloads ≡ ps

  SamePayloads-IsKept : (ps : List RawPayload) → IsKept (λ s. Unit) (SamePayloads ps)
  SamePayloads-IsKept ps = record {
    at_post = λ res c c' new p h e. (PostEffect-others new c c' (ok p) e).1.1 ∙ h;
    at_comment = λ res c c' new m h e. (CommentEffect-others new c c' (ok m) e).1.1 ∙ h;
    at_sample = λ res c c' s q h e. (SampleEffect-others s c c' (ok tt) e).1.1 ∙ h;
    at_bytes = λ res c raw h. h;
  }

  abbrev keys_of : ℕ → Content → List String
  keys_of run c = map key_of (keep (is_payload_of run) c.payloads)

  list-Calm_lem :
      (run : ℕ) (db : Db)
      → Calm ports db
      → list_raw_payloads run db ≡ (ok (keys_of run db.content), db)
  unfolding list_raw_payloads
  list-Calm_lem run db h = rw h refl

  abbrev run_keys :
      Option Platform → Window → (String → Option (List ℕ)) → List String → Db → IngestResult × Db
  run_keys platform w get keys db = ingest_keys ports platform w get keys (no_result, db)

  run_lem :
      (platform : Option Platform) (w : Window) (run : ℕ) (get : String → Option (List ℕ)) (db : Db)
      → ports.read ≡ some get
      → Calm ports db
      → (ingest_run ports platform w run db).1
        ≡ (run_keys platform w get (keys_of run db.content) db).1
  unfolding ingest_run
  run_lem platform w run get db e h = rw (ingest_run, e, list-Calm_lem run db h) refl

  same_keys :
      (platform : Option Platform) (w : Window) (run : ℕ) (get : String → Option (List ℕ))
      (keys : List String) (db : Db)
      → keys_of run (run_keys platform w get keys db).1.content ≡ keys_of run db.content
  same_keys platform w run get keys db =
      ap (λ ps. map key_of (keep (is_payload_of run) ps))
        (keys-Holds ports (λ s. Unit) (SamePayloads db.content.payloads)
          (SamePayloads-IsKept db.content.payloads) platform w get keys (no_result, db)
          (λ raw.
            all_good ports (SamePayloads db.content.payloads)
              (SamePayloads-IsKept db.content.payloads) _)
          refl)

  abbrev IsReplay : Option Platform → Window → ℕ → Db → Db → Type 0
  IsReplay platform w run first db =
      length (ingest_run ports platform w run db).1.content.posts ≡ length first.content.posts

  read_replays :
      (platform : Option Platform) (w : Window) (run : ℕ) (get : String → Option (List ℕ)) (db : Db)
      → ports.read ≡ some get
      → Calm ports db
      → IsReplay platform w run
          (run_keys platform w get (keys_of run db.content) db).1
          (run_keys platform w get (keys_of run db.content) db).1
  read_replays platform w run get db e h =
      let keys = keys_of run db.content in
      let (s, calm) = keys-settled ports platform w get keys (no_result, db) h in
      let db' = (run_keys platform w get keys db).1 in
      ap (λ d. length d.content.posts) (run_lem platform w run get db' e calm)
      ∙ (ap (λ ks. length (run_keys platform w get ks db').1.content.posts)
            (same_keys platform w run get keys db)
          ∙ keys-length ports platform w get keys (no_result, db') s)

  unread_lem :
      (platform : Option Platform) (w : Window) (run : ℕ) (db : Db)
      → ports.read ≡ none
      → (ingest_run ports platform w run db).1 ≡ db
  unfolding ingest_run
  unread_lem platform w run db e = rw (ingest_run, e) refl

-- Where no call is to fail, none is after a run.
pub ingest_run-Calm :
    (ports : IngestPorts) (platform : Option Platform) (w : Window) (run : ℕ) (db : Db)
    → db.faults ≡ []
    → (ingest_run ports platform w run db).1.faults ≡ []
ingest_run-Calm ports platform w run db h = go ports.read refl
  where
    go :
        (read : Option (String → Option (List ℕ)))
        → ports.read ≡ read
        → (ingest_run ports platform w run db).1.faults ≡ []
    go none e = subst (λ d. d.faults ≡ []) (sym (unread_lem ports platform w run db e)) h
    go (some get) e =
        subst (λ d. d.faults ≡ []) (sym (run_lem ports platform w run get db e h))
          (keys-settled ports platform w get _ (no_result, db) h).1

-- When no call fails, a run that is ingested a second time leaves as many posts as the first time did,
-- whatever its payloads hold.
pub ingest_run-replay :
    (ports : IngestPorts) (platform : Option Platform) (w : Window) (run : ℕ) (db : Db)
    → db.faults ≡ []
    → let first = (ingest_run ports platform w run db).1 in
      length (ingest_run ports platform w run first).1.content.posts ≡ length first.content.posts
ingest_run-replay ports platform w run db h = go ports.read refl
  where
    go :
        (read : Option (String → Option (List ℕ)))
        → ports.read ≡ read
        → IsReplay ports platform w run
            (ingest_run ports platform w run db).1
            (ingest_run ports platform w run db).1
    go none e =
        ap (λ d. length d.content.posts)
          (unread_lem ports platform w run (ingest_run ports platform w run db).1 e)
    go (some get) e =
        subst (λ d. IsReplay ports platform w run d d)
          (sym (run_lem ports platform w run get db e h))
          (read_replays ports platform w run get db e h)
