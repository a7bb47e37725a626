-- ===== src/Packer/Chosen.antt =====
-- packer.go, `PackInto`: how many accounts a container holds after an operator chose it.
use jg_smm.Prelude.{ℕ, ◌<◌, ◌≡◌, refl, ◌∙◌, true, false, Bool, List, arith, count}
use jg_smm.Domain.Status.{Platform}
use jg_smm.Domain.Entities.{Account, Worker}
use jg_smm.Store.{Db, Result, ok, err, bind_result}
use jg_smm.Store.Accounts.{is_on, get_by_id}
use jg_smm.Store.Workers
use jg_smm.Packer.{
  Config, Ports, has_free_slot, resolved, resolve_container, if_placeable, pack_into_worker,
  pack_into,
}
use jg_smm.Packer.Capacity.{
  Within, UniqueIds, Tried, unchanged, Packed, chosen-Tried, placeable-Tried, get_by_id-accounts,
  Tried-Packed, has_free_slot-room,
}

module _ (ports : Ports) (cfg : Config) (p : Platform) (before : List Account) where
  -- A container that is resolved has room, and resolving writes nothing.
  pub record Roomy (x : Result Worker × Db) : Type 0 where
    pub same_accounts : x.1.accounts ≡ before
    pub has_room : (w : Worker) → x.0 ≡ ok w → count (is_on w.id) before < cfg.max_per_container

  resolved-Roomy :
      (w : Worker) (x : Bool × Db)
      → x.1.accounts ≡ before
      → (x.0 ≡ true → count (is_on w.id) before < cfg.max_per_container)
      → Roomy (resolved w x)
  unfolding resolved
  resolved-Roomy w (true, db) e c = record {
    same_accounts = e;
    has_room = λ v q. ground (arith, c refl, q);
  }
  resolved-Roomy w (false, db) e c = ground (arith, e)

  looked_up-Roomy :
      (x : Result Worker × Db)
      → x.1.accounts ≡ before
      → Roomy (bind_result x (λ w db. resolved w (has_free_slot cfg w p db)))
  looked_up-Roomy (err q, db) e = ground (arith, e)
  looked_up-Roomy (ok w, db) e =
      let (same, room) = has_free_slot-room cfg w p db in
      resolved-Roomy w (has_free_slot cfg w p db) (same ∙ e) (λ t. rw (← e) (room t))

worker_by_id-accounts : (i : ℕ) (db : Db) → (Workers.get_by_id i db).1.accounts ≡ db.accounts
unfolding Workers.get_by_id
worker_by_id-accounts i db = ground arith

module _ (ports : Ports) (cfg : Config) (p : Platform) (before : List Account)
    (h : Within cfg.max_per_container before) (u : UniqueIds before) where
  into_worker-Tried :
      (i : ℕ) (a : Account) (db : Db)
      → db.accounts ≡ before
      → Tried cfg.max_per_container before (pack_into_worker ports cfg i p a db)
  unfolding pack_into_worker resolve_container
  into_worker-Tried i a db e =
      let r =
        looked_up-Roomy ports cfg p before (Workers.get_by_id i db)
          (worker_by_id-accounts i db ∙ e) in
      chosen-Tried ports cfg before h u a (resolve_container ports cfg i p db) r.same_accounts
        r.has_room

  found-Tried :
      (i : ℕ) (x : Result Account × Db)
      → x.1.accounts ≡ before
      → Tried cfg.max_per_container before
          (bind_result x (λ a. if_placeable a (pack_into_worker ports cfg i p a)))
  found-Tried i (err q, db) e = unchanged e
  found-Tried i (ok a, db) e =
      placeable-Tried cfg.max_per_container before a _ db e (into_worker-Tried i a db e)

-- If no container holds more accounts than the cap and ids are unique, then after `PackInto` no
-- container holds more than the cap, whatever the answer and whichever statements failed; and when
-- the answer is an error, the accounts are as they were.
pub pack_into-Packed :
    (ports : Ports) (cfg : Config) (i : ℕ) (p : Platform) (worker : ℕ) (db : Db)
    → Within cfg.max_per_container db.accounts
    → UniqueIds db.accounts
    → Packed cfg.max_per_container db.accounts (pack_into ports cfg i p worker db)
unfolding pack_into
pack_into-Packed ports cfg i p worker db h u =
    Tried-Packed cfg.max_per_container db.accounts _ h
      (found-Tried ports cfg p db.accounts h u worker (get_by_id i db) (get_by_id-accounts i db))
