-- ===== src/Searching/Ends.antt =====
-- scrape_keyword.go, processBatch: how the batch ends, and that no other batch is written.
use jg_smm.Prelude.{
  ℕ, ◌≡◌, ◌≢◌, refl, sym, ap, ◌∙◌, inl, inr, Bool, true, false, List, [], ◌∷◌, Option, some, any,
  find, find-pass, arith, Bool-cases,
}
use std.Path.{subst}
use jg_smm.Prelude.Table.{update_where, any-update_where, find-update_where, find-update_other}
use jg_smm.Domain.Content.{KeywordBatch, is_terminal}
use jg_smm.Store.{Db, Err, ok, err}
use jg_smm.Store.Keywords.{has_batch_id, updated_batch, update_keyword_batch, get_keyword_batch}
use jg_smm.Parsing.{is_zero}
use jg_smm.Searching.{
  SearchPorts, fail_batch, failure_of, join_all, success_of, finish_batch, process_batch,
}
use jg_smm.Searching.Steps.{
  batches_of, get_keyword_batch-batches, get_keyword_batch-calm, update_keyword_batch-calm,
  update_keyword_batch-rows, update_keyword_batch-calm_rows,
}
use jg_smm.Searching.Lifecycle.{IsStable, join_all-P, after_fetch-F}

own_id : (i : ℕ) (b : KeywordBatch) → has_batch_id i b ≡ true → b.id ≡ i
own_id i b h = ground (arith, h)

-- A fetched row has the id that was asked for.
fetched_id :
    (i : ℕ) (db : Db) (row : KeywordBatch) → (get_keyword_batch i db).0 ≡ ok row → row.id ≡ i
unfolding get_keyword_batch
fetched_id i db row h = ground (arith, h, find-pass (has_batch_id i) (batches_of db) row)

-- The row of another batch.
abbrev IsRow : ℕ → Option KeywordBatch → Db → Type 0
IsRow j x db = find (has_batch_id j) (batches_of db) ≡ x

other_row :
    (i j : ℕ) (b : KeywordBatch) (now : ℕ) (rows : List KeywordBatch)
    → i ≢ j
    → b.id ≡ i
    → find (has_batch_id j) (update_where (has_batch_id b.id) (updated_batch b now) rows)
      ≡ find (has_batch_id j) rows
other_row i j b now rows d e =
    find-update_other (has_batch_id b.id) (has_batch_id j) (updated_batch b now) rows
      (λ x h. ground (arith, h, e, d)) (λ x h. ground (arith, h, e, d))

IsRow-IsStable : (i j : ℕ) (x : Option KeywordBatch) → i ≢ j → IsStable i (IsRow j x)
IsRow-IsStable i j x d = record {
  at_same = λ db db' s c h. ap (find (has_batch_id j)) s ∙ h;
  at_update = λ b db e h. elim (update_keyword_batch-rows b db) [
    | inl s ↦ ap (find (has_batch_id j)) s ∙ h
    | inr s ↦ ap (find (has_batch_id j)) s ∙ (other_row i j b db.now (batches_of db) d e ∙ h)
  ];
}

-- Whatever the actor answers and whichever calls fail, the processing of a batch writes no other batch.
pub process_batch-others :
    (ports : SearchPorts) (b : KeywordBatch) (j : ℕ) (db : Db)
    → b.id ≢ j
    → find (has_batch_id j) (batches_of (process_batch ports b db))
      ≡ find (has_batch_id j) (batches_of db)
unfolding process_batch fail_batch finish_batch
process_batch-others ports b j db d =
    let x = find (has_batch_id j) (batches_of db) in
    let P = IsRow j x in
    let stable = IsRow-IsStable b.id j x d in
    after_fetch-F ports b.id P stable P
      (λ msg db' h. stable.at_update (failure_of ports b.id msg db'.now) db' refl h)
      (λ run res db' h.
        stable.at_update (success_of ports b.id run res (join_all ports b.id res.post_ids db').now)
          (join_all ports b.id res.post_ids db') refl
          (join_all-P ports b.id P stable b.id res.post_ids db' h))
      b (get_keyword_batch b.id db) refl (fetched_id b.id db) (λ e q h. h)
      (ap (find (has_batch_id j)) (get_keyword_batch-batches b.id db))

-- No call is to fail, and the batch has a row.
abbrev IsReady : ℕ → Db → Type 0
IsReady i db = (db.faults ≡ []) × (any (has_batch_id i) (batches_of db) ≡ true)

IsReady-IsStable : (i : ℕ) → IsStable i (IsReady i)
IsReady-IsStable i = record {
  at_same = λ db db' s c h. (c h.0, ap (any (has_batch_id i)) s ∙ h.1);
  at_update = λ b db e h. (
    update_keyword_batch-calm b db h.0,
    ap (any (has_batch_id i)) (update_keyword_batch-calm_rows b db h.0)
        ∙ (any-update_where (has_batch_id i) (has_batch_id b.id) (updated_batch b db.now)
              (batches_of db) (λ x. refl)
            ∙ h.1),
  );
}

-- The row of the batch has one of the two terminal statuses, and the time of its end.
pub record IsEnded (i : ℕ) (db : Db) : Type 0 where
  pub row : KeywordBatch
  pub found : find (has_batch_id i) (batches_of db) ≡ some row
  pub terminal : is_terminal row.status ≡ true
  pub stamped : is_zero row.finished_at ≡ false

any-find :
    (q : KeywordBatch → Bool) (rows : List KeywordBatch)
    → any q rows ≡ true
    → (row : KeywordBatch) × (find q rows ≡ some row)
any-find q [] h = ground (arith, h)
any-find q (x ∷ rows) h = elim (Bool-cases (q x)) [
  | inl e ↦ (x, rw (find, e) refl)
  | inr e ↦ let (row, f) = any-find q rows (ground (arith, e, h)) in (row, rw (find, e) f)
]

updated_row :
    (i : ℕ) (b row : KeywordBatch) (now : ℕ) (rows : List KeywordBatch)
    → b.id ≡ i
    → find (has_batch_id i) rows ≡ some row
    → find (has_batch_id i) (update_where (has_batch_id b.id) (updated_batch b now) rows)
      ≡ some (updated_batch b now row)
updated_row i b row now rows e h =
    subst
      (λ k.
        find (has_batch_id i) (update_where (has_batch_id k) (updated_batch b now) rows)
        ≡ some (updated_batch b now row))
      (sym e)
      (rw (find-update_where (has_batch_id i) (updated_batch b now) rows (λ x p. p), h) refl)

ending-IsEnded :
    (i : ℕ) (b : KeywordBatch) (now : ℕ) (db : Db)
    → b.id ≡ i
    → is_terminal b.status ≡ true
    → b.finished_at ≡ some now
    → IsReady i db
    → IsEnded i (update_keyword_batch b db).1
ending-IsEnded i b now db e t f h =
    let (row, found) = any-find (has_batch_id i) (batches_of db) h.1 in
    record {
      row = updated_batch b db.now row;
      found =
          ap (find (has_batch_id i)) (update_keyword_batch-calm_rows b db h.0)
          ∙ updated_row i b row db.now (batches_of db) e found;
      terminal = t;
      stamped = rw f refl;
    }

fetch-ok : (i : ℕ) (db : Db) (e : Err) → IsReady i db → (get_keyword_batch i db).0 ≡ err e → ⊥
unfolding get_keyword_batch
fetch-ok i db e h q = go (any-find (has_batch_id i) (batches_of db) h.1)
  where
    go : ((row : KeywordBatch) × (find (has_batch_id i) (batches_of db) ≡ some row)) → ⊥
    go (row, f) = ground (arith, h.0, f, q)

-- When the batch has its row and no call fails, the processing ends: whatever the actor answers, the
-- batch is then SUCCEEDED or FAILED, with the time of its end.
pub process_batch-IsEnded :
    (ports : SearchPorts) (b : KeywordBatch) (db : Db)
    → db.faults ≡ []
    → any (has_batch_id b.id) (batches_of db) ≡ true
    → IsEnded b.id (process_batch ports b db)
unfolding process_batch fail_batch finish_batch
process_batch-IsEnded ports b db calm there =
    let P = IsReady b.id in
    let stable = IsReady-IsStable b.id in
    after_fetch-F ports b.id P stable (IsEnded b.id)
      (λ msg db' h.
        ending-IsEnded b.id (failure_of ports b.id msg db'.now) db'.now db' refl refl refl h)
      (λ run res db' h.
        let joined = join_all ports b.id res.post_ids db' in
        ending-IsEnded b.id (success_of ports b.id run res joined.now) joined.now joined refl refl
          refl (join_all-P ports b.id P stable b.id res.post_ids db' h))
      b (get_keyword_batch b.id db) refl (fetched_id b.id db)
      (λ e q h. absurd (fetch-ok b.id db e (calm, there) q))
      (
        get_keyword_batch-calm b.id db calm,
        ap (any (has_batch_id b.id)) (get_keyword_batch-batches b.id db) ∙ there,
      )
