-- ===== src/Examples/Containers.antt =====
-- The packer and the port allocator on the sample rows.
use jg_smm.Prelude.{
  ℕ, suc, ◌+◌, ◌≤◌, ◌≡◌, refl, ◌⊎◌, List, [], ◌∷◌, Option, none, some, arith, count, true,
}
use jg_smm.Domain.Status.{instagram}
use jg_smm.Domain.Entities.{Account}
use jg_smm.Store.{Db}
use jg_smm.Store.Accounts.{is_on}
use jg_smm.Novnc.{NovncAllocator}
use jg_smm.Novnc.Range.{Picked, pick_lem}
use jg_smm.Packer.{Config, Ports, pack, reap_empty, release}
use jg_smm.Packer.Capacity.{Within, UniqueIds, IsFresh, Packed}
use jg_smm.Packer.Packing.{pack-Packed}
use jg_smm.Packer.Reap.{Kept, MayReap, reap_empty_lem, release-workers}
use jg_smm.Examples.{sample_account, sample_db}

abbrev worker_number : Option ℕ → ℕ
worker_number none = 0
worker_number (some w) = suc w

-- A number above every container that an account names.
abbrev above : List Account → ℕ
above [] = 0
above (a ∷ rest) = worker_number a.worker_id + above rest

count-above : (k : ℕ) (accounts : List Account) → above accounts ≤ k → count (is_on k) accounts ≡ 0
count-above k [] h = refl
count-above k (a ∷ rest) h = ground (arith, count-above k rest)

abbrev next_id : Db → ℕ
next_id db = above db.accounts

next_id-IsFresh : IsFresh next_id
next_id-IsFresh db = count-above (above db.accounts) db.accounts (omega arith)

abbrev local_ports : NovncAllocator
local_ports = record { host = "localhost"; port_min = 24_100; port_max = 24_102 }

abbrev packer_ports : Ports
packer_ports = record {
  new_id = next_id;
  new_name = λ n db. "smm-b";
  novnc = some local_ports;
  scan = λ s. none;
  format = λ host p. host;
}

abbrev packer_config : Config
packer_config = record { max_per_container = 3; auto_create = true }

-- The sample account without its container.
abbrev loose_db : Db
loose_db = record sample_db { accounts = record sample_account { worker_id = none } ∷ [] }

loose_db-Within : Within 3 loose_db.accounts
loose_db-Within w = omega arith

loose_db-UniqueIds : UniqueIds loose_db.accounts
loose_db-UniqueIds i = ground arith

pack-Packed_example :
    Packed 3 loose_db.accounts (pack packer_ports packer_config 7 instagram loose_db)
pack-Packed_example =
    pack-Packed packer_ports packer_config 7 instagram loose_db next_id-IsFresh (omega arith)
      loose_db-Within loose_db-UniqueIds

reap_empty_lem_example : Kept loose_db (reap_empty 3 loose_db).1 ⊎ MayReap 3 loose_db
reap_empty_lem_example = reap_empty_lem 3 loose_db

release-workers_example : (release 7 sample_db).1.workers ≡ sample_db.workers
release-workers_example = release-workers 7 sample_db

pick_lem_example : Picked local_ports (24_100 ∷ []) none
pick_lem_example = pick_lem local_ports (24_100 ∷ []) none
