-- ===== src/Packer/Creation.antt =====
-- packer.go, `createWorker`: the accounts when a container is created.
use jg_smm.Prelude.{
  ℕ, zero, suc, ◌≡◌, refl, ◌∙◌, inl, inr, Bool, true, false, List, [], ◌∷◌, String, Option, none,
  arith, count, ltb, Bool-cases, Option-cases,
}
use jg_smm.Domain.Status.{WorkerSource}
use jg_smm.Domain.Entities.{Account, Worker}
use jg_smm.Store.{Db, Result, ok, err, conflict, M, bind_result}
use jg_smm.Store.Accounts.{is_on}
use jg_smm.Store.Workers.{list, create}
use jg_smm.Novnc.{NovncAllocator, allocate, picked, pick, used_ports}
use jg_smm.Packer.{Ports, after_create, create_tries, create_worker}

picked-accounts :
    (scan : List ℕ → Option ℕ) (format : String → ℕ → String) (a : NovncAllocator) (r : Result ℕ)
    (db : Db)
    → (picked scan format a r db).1.accounts ≡ db.accounts
unfolding picked
picked-accounts scan format a (ok p) db = refl
picked-accounts scan format a (err e) db = refl

taken-accounts :
    (scan : List ℕ → Option ℕ) (format : String → ℕ → String) (a : NovncAllocator)
    (before : List Account) (x : Result (List ℕ) × Db)
    → x.1.accounts ≡ before
    → (bind_result x (λ taken. picked scan format a (pick a taken none))).1.accounts ≡ before
taken-accounts scan format a before (ok taken, db) e =
    picked-accounts scan format a (pick a taken none) db ∙ e
taken-accounts scan format a before (err q, db) e = e

used_ports-accounts :
    (scan : List ℕ → Option ℕ) (format : String → ℕ → String) (db : Db)
    → (used_ports scan format db).1.accounts ≡ db.accounts
unfolding used_ports list
used_ports-accounts scan format db = ground arith

allocate-accounts :
    (scan : List ℕ → Option ℕ) (format : String → ℕ → String) (a : NovncAllocator) (db : Db)
    → (allocate scan format a none db).1.accounts ≡ db.accounts
unfolding allocate
allocate-accounts scan format a db = elim (Bool-cases (ltb 0 a.port_max)) [
  | inl e ↦ rw e (taken-accounts scan format a db.accounts _ (used_ports-accounts scan format db))
  | inr e ↦ rw e refl
]

-- The creation of a container leaves the accounts alone, and the container has none of them.
pub record Empty (before : List Account) (x : Result Worker × Db) : Type 0 where
  pub same_accounts : x.1.accounts ≡ before
  pub hosts_none : (w : Worker) → x.0 ≡ ok w → count (is_on w.id) before ≡ 0

module _ (ports : Ports) (before : List Account)
    (fresh : (db : Db) → count (is_on (ports.new_id db)) db.accounts ≡ 0) where
  create-Empty :
      (w : Worker) (db : Db) → db.accounts ≡ before → Empty before (create ports.new_id w db)
  unfolding create
  create-Empty w db e = create_with db.faults refl
    where
      create_with :
          (faults : List Bool) → db.faults ≡ faults → Empty before (create ports.new_id w db)
      create_with [] q = ground (arith, fresh db, e)
      create_with (true ∷ rest) q = ground (arith, e)
      create_with (false ∷ rest) q = ground (arith, fresh (record db { faults = rest }), e)

  after_create-Empty :
      (again : M Worker) (x : Result Worker × Db)
      → Empty before x
      → ((db : Db) → db.accounts ≡ before → Empty before (again db))
      → Empty before (after_create ports again x)
  unfolding after_create
  after_create-Empty again (ok w, db) h r = h
  after_create-Empty again (err conflict, db) h r = r db h.same_accounts
  after_create-Empty again (err e, db) h r = h

  create_tries-Empty :
      (source : WorkerSource) (url : Option String) (n : ℕ) (db : Db)
      → db.accounts ≡ before
      → Empty before (create_tries ports source url n db)
  unfolding create_tries
  create_tries-Empty source url zero db e = ground (arith, e)
  create_tries-Empty source url (suc n) db e =
      after_create-Empty (create_tries ports source url n) _ (create-Empty _ db e)
        (create_tries-Empty source url n)

  allocated-Empty :
      (source : WorkerSource) (x : Result (Option String) × Db)
      → x.1.accounts ≡ before
      → Empty before (bind_result x (λ url. create_tries ports source url 3))
  allocated-Empty source (ok url, db) e = create_tries-Empty source url 3 db e
  allocated-Empty source (err q, db) e = ground (arith, e)

  pub create_worker-Empty :
      (source : WorkerSource) (db : Db)
      → db.accounts ≡ before
      → Empty before (create_worker ports source db)
  unfolding create_worker
  create_worker-Empty source db e = elim (Option-cases ports.novnc) [
    | inl q ↦ rw q (create_tries-Empty source none 3 db e)
    | inr (a, q) ↦
        rw q (allocated-Empty source _ (allocate-accounts ports.scan ports.format a db ∙ e))
  ]
