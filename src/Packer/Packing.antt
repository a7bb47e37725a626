-- ===== src/Packer/Packing.antt =====
-- packer.go, `Pack`: the loop over the candidates, the new container, and the cap.
use jg_smm.Prelude.{
  ℕ, ◌≤◌, ◌<◌, ◌≡◌, refl, ◌∙◌, inl, inr, Bool, true, false, List, [], ◌∷◌, Option, none, some,
  arith, count, Bool-cases,
}
use jg_smm.Domain.Status.{Platform, WorkerSource}
use jg_smm.Domain.Entities.{Account, Worker}
use jg_smm.Store.{Db, Result, ok, err, conflict, M, bind_result, ◌>>=◌}
use jg_smm.Store.Accounts.{is_on, assign, get_by_id}
use jg_smm.Store.Workers.{list, wants_to_run}
use jg_smm.Packer.Creation.{create_worker-Empty}
use jg_smm.Packer.{
  Config, Ports, fall_back, after_candidates, choose, if_placeable, pack, has_free_slot,
  after_assign, after_check, try_each,
}
use jg_smm.Packer.Capacity.{
  Within, UniqueIds, Assigned, assign-Assigned, has_free_slot-room, Walked, untouched, placed,
  Tried, unchanged, packed, IsFresh, placeable-Tried, chosen-Tried, get_by_id-accounts, Packed,
  Tried-Packed,
}

module _ (cfg : Config) (a : Account) (p : Platform) (before : List Account)
    (h : Within cfg.max_per_container before) (u : UniqueIds before) where
  after_assign-Walked :
      (w : Worker) (rest : M (Option (Account × Worker))) (x : Result Account × Db)
      → ((db' : Db) → db'.accounts ≡ before → Walked cfg.max_per_container before (rest db'))
      → Assigned cfg.max_per_container before x
      → Walked cfg.max_per_container before (after_assign w rest x)
  unfolding after_assign
  after_assign-Walked w rest (ok b, db') r (inl e) = untouched e
  after_assign-Walked w rest (ok b, db') r (inr (k, e)) = placed (b, w) refl e
  after_assign-Walked w rest (err conflict, db') r (inl e) = r db' e
  after_assign-Walked w rest (err e', db') r (inl e) = untouched e
  after_assign-Walked w rest (err e', db') r (inr (k, e)) = ground (arith, k e')

  after_check-Walked :
      (w : Worker) (rest : M (Option (Account × Worker))) (x : Bool × Db)
      → ((db' : Db) → db'.accounts ≡ before → Walked cfg.max_per_container before (rest db'))
      → x.1.accounts ≡ before
      → (x.0 ≡ true → count (is_on w.id) before < cfg.max_per_container)
      → Walked cfg.max_per_container before (after_check a w rest x)
  unfolding after_check
  after_check-Walked w rest (false, db) r e c = r db e
  after_check-Walked w rest (true, db) r e c =
      after_assign-Walked w rest (assign a.id w.id db) r
        (assign-Assigned cfg.max_per_container a.id w.id before db e h u (c refl))

  try_each-Walked :
      (ws : List Worker) (db : Db)
      → db.accounts ≡ before
      → Walked cfg.max_per_container before (try_each cfg a p ws db)
  unfolding try_each
  try_each-Walked [] db e = untouched e
  try_each-Walked (w ∷ ws) db e =
      let (same, room) = has_free_slot-room cfg w p db in
      after_check-Walked w (try_each cfg a p ws) (has_free_slot cfg w p db)
        (λ db' q. try_each-Walked ws db' q) (same ∙ e) (λ t. rw (← e) (room t))

list-accounts :
    (filter : Worker → Bool) (limit : ℕ) (db : Db) → (list filter limit db).1.accounts ≡ db.accounts
unfolding list
list-accounts filter limit db = ground arith

module _ (ports : Ports) (cfg : Config) (fresh : IsFresh ports.new_id)
    (positive : 1 ≤ cfg.max_per_container) (before : List Account)
    (h : Within cfg.max_per_container before) (u : UniqueIds before) where
  fall_back-Tried :
      (a : Account) (db : Db)
      → db.accounts ≡ before
      → Tried cfg.max_per_container before (fall_back ports cfg a db)
  unfolding fall_back
  fall_back-Tried a db e = elim (Bool-cases cfg.auto_create) [
    | inr q ↦ rw q (unchanged e)
    | inl q ↦
        let c = create_worker-Empty ports before fresh WorkerSource.auto db e in
        rw q (
          chosen-Tried ports cfg before h u a _ c.same_accounts (λ w o.
            let none_on : count (is_on w.id) before ≡ 0 = c.hosts_none w o in
            omega (arith, none_on, positive)))
  ]

  after_candidates-Tried :
      (a : Account) (x : Result (Option (Account × Worker)) × Db)
      → Walked cfg.max_per_container before x
      → Tried cfg.max_per_container before (bind_result x (after_candidates ports cfg a))
  unfolding after_candidates
  after_candidates-Tried a (ok (some y), db) (untouched e) = unchanged e
  after_candidates-Tried a (ok (some y), db) (placed z q c) = packed y refl c
  after_candidates-Tried a (ok none, db) (untouched e) = fall_back-Tried a db e
  after_candidates-Tried a (ok none, db) (placed z q c) = ground (arith, q)
  after_candidates-Tried a (err q, db) (untouched e) = unchanged e
  after_candidates-Tried a (err q, db) (placed z r c) = ground (arith, r)

  listed-Tried :
      (a : Account) (p : Platform) (x : Result (List Worker) × Db)
      → x.1.accounts ≡ before
      → Tried cfg.max_per_container before
          (bind_result x (λ ws. try_each cfg a p ws >>= after_candidates ports cfg a))
  listed-Tried a p (err q, db) e = unchanged e
  listed-Tried a p (ok ws, db) e =
      after_candidates-Tried a (try_each cfg a p ws db) (try_each-Walked cfg a p before h u ws db e)

  choose-Tried :
      (a : Account) (p : Platform) (db : Db)
      → db.accounts ≡ before
      → Tried cfg.max_per_container before (choose ports cfg a p db)
  unfolding choose
  choose-Tried a p db e = listed-Tried a p _ (list-accounts wants_to_run 200 db ∙ e)

  found-Tried :
      (p : Platform) (x : Result Account × Db)
      → x.1.accounts ≡ before
      → Tried cfg.max_per_container before
          (bind_result x (λ a. if_placeable a (choose ports cfg a p)))
  found-Tried p (err q, db) e = unchanged e
  found-Tried p (ok a, db) e =
      placeable-Tried cfg.max_per_container before a _ db e (choose-Tried a p db e)

-- If no container holds more accounts than the cap, which is at least 1, ids are unique and the
-- database hands out fresh ids, then after `Pack` no container holds more than the cap, whatever
-- the answer and whichever statements failed; and when the answer is an error, the accounts are as
-- they were.
pub pack-Packed :
    (ports : Ports) (cfg : Config) (i : ℕ) (p : Platform) (db : Db)
    → IsFresh ports.new_id
    → 1 ≤ cfg.max_per_container
    → Within cfg.max_per_container db.accounts
    → UniqueIds db.accounts
    → Packed cfg.max_per_container db.accounts (pack ports cfg i p db)
unfolding pack
pack-Packed ports cfg i p db fresh positive h u =
    Tried-Packed cfg.max_per_container db.accounts _ h (
      found-Tried ports cfg fresh positive db.accounts h u p (get_by_id i db)
        (get_by_id-accounts i db))
