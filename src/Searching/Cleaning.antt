-- ===== src/Searching/Cleaning.antt =====
-- scrape_keyword.go, CreateBatch: which searches are accepted.
use jg_smm.Prelude.{◌≤◌, ◌≡◌, ◌⊎◌, none, true, false, List, [], ◌∷◌, String, any, length}
use jg_smm.Domain.Content.{KeywordBatch, pending}
use jg_smm.Domain.Status.{instagram, threads}
use jg_smm.Store.{Db, Err, Result, ok, err, driver, validation, unavailable}
use jg_smm.Users.{is_empty}
use jg_smm.Domain.Searches.{KeywordInput}
use jg_smm.Searching.{SearchPorts, same_keyword, clean_from}
use jg_smm.Searching.Steps.{batches_of}

module _ (ports : SearchPorts) where
  -- No keyword is empty, and none is one that came before, whatever the case of their letters.
  abbrev pub IsClean : List String → List String → Type 0
  IsClean seen [] = Unit
  IsClean seen (k ∷ ks) =
      (is_empty k ≡ false) × ((any (same_keyword ports k) seen ≡ false) × IsClean (k ∷ seen) ks)

  abbrev pub Among : String → List String → Type 0
  Among x [] = ⊥
  Among x (k ∷ ks) = (x ≡ k) ⊎ Among x ks

  abbrev Covers : List String → List String → String → Type 0
  Covers seen kept x =
      (any (same_keyword ports (ports.trim x)) seen ≡ true)
      ⊎ (any (same_keyword ports (ports.trim x)) kept ≡ true)

  -- The keywords of a search: those of the request, trimmed, each that is not blank under some case of
  -- its letters, none of them empty and no two the same.
  pub record IsCleaned (given kept : List String) : Type 0 where
    pub clean : IsClean [] kept
    pub from_given : (x : String) → Among x kept → (k : String) × Among k given × (x ≡ ports.trim k)
    pub covering :
        (x : String)
        → Among x given
        → is_empty (ports.trim x) ≡ false
        → any (same_keyword ports (ports.trim x)) kept ≡ true

  -- A request that is not turned away.
  pub record IsValid (input : KeywordInput) (kept : List String) : Type 0 where
    pub searchable : (input.platform ≡ instagram) ⊎ (input.platform ≡ threads)
    pub some_keyword : 1 ≤ length kept
    pub few_keywords : length kept ≤ 5
    pub runs : ports.has_runner ≡ true
    pub stores : ports.has_batches ≡ true
    pub has_actor : is_empty (ports.actor_for input.platform) ≡ false

  -- What the batch of an accepted request holds.
  pub record IsAccepted (input : KeywordInput) (before : List KeywordBatch) (b : KeywordBatch)
      (db : Db) : Type 0 where
    pub valid : IsValid input b.keywords
    pub cleaned : IsCleaned input.keywords b.keywords
    pub rows : batches_of db ≡ b ∷ before
    pub as_asked : b ≡ record b {
      platform = input.platform;
      window_from = input.window.from;
      window_to = input.window.to;
      actor_id = ports.actor_for input.platform;
      status = pending;
      apify_run_id = none;
      items_read = 0;
      posts_count = 0;
      comments_count = 0;
      error = none;
      created_by = input.created_by;
      finished_at = none;
    }
    pub posts_unset : input.max_posts ≡ 0 → b.max_posts ≡ 50
    pub posts_cut : 200 ≤ input.max_posts → b.max_posts ≡ 200
    pub posts_kept : 1 ≤ input.max_posts → input.max_posts ≤ 200 → b.max_posts ≡ input.max_posts

  -- Why a request gets no batch: it is turned away before any statement, or the statement fails.
  pub data Refusal (input : KeywordInput) (before : Db) (e : Err) (db : Db) : Type 0 where
    turned_away :
        (IsValid input (clean_from ports [] input.keywords) → ⊥)
        → (e ≡ validation) ⊎ (e ≡ unavailable)
        → db ≡ before
        → Refusal input before e db
    not_stored :
        IsValid input (clean_from ports [] input.keywords)
        → e ≡ driver
        → batches_of db ≡ batches_of before
        → Refusal input before e db

  abbrev pub Answered : KeywordInput → Db → Result KeywordBatch × Db → Type 0
  Answered input before (ok b, db) = IsAccepted input (batches_of before) b db
  Answered input before (err e, db) = Refusal input before e db
