-- ===== src/Packer.antt =====
-- apps/api/internal/service/packer.go: which worker container an account is put into, when a new one
-- is created, and when an empty one is removed. The database's choice of an id, the random name, and
-- the formatting and reading of the live-view URL are parameters.
pub mod Creation
pub mod Capacity
pub mod Packing
pub mod Chosen
pub mod Reap
use jg_smm.Prelude.{
  ℕ, zero, suc, String, Bool, true, false, not, ltb, leb, if◌then◌else◌, List, [], ◌∷◌, Option,
  none, some, any,
}
use jg_smm.Domain.Status.{Platform, WorkerStatus, WorkerSource, DesiredState, is_auto}
use jg_smm.Domain.Entities.{Account, Worker, is_packable}
use jg_smm.Store.{
  Db, M, Err, Result, ok, err, not_found, conflict, validation, unavailable, pure, throw,
  bind_result, ◌>>=◌,
}
use jg_smm.Store.Accounts.{
  get_by_id, assign, unassign, list_by_worker, count_by_worker, same_platform,
}
use jg_smm.Novnc.{NovncAllocator, allocate}
use jg_smm.Store.Workers
use jg_smm.Store.Workers.{list, wants_to_run, create, delete}

pub record Config : Type 0 where
  pub max_per_container : ℕ
  pub auto_create : Bool

-- `NewPacker`: a cap below 1 becomes 1.
unfoldable pub with_defaults : Config → Config
with_defaults c = record c {
  max_per_container = if ltb c.max_per_container 1 then 1 else c.max_per_container;
}

-- What the packer is built with besides the stores.
pub record Ports : Type 0 where
  pub new_id : Db → ℕ
  pub new_name : ℕ → Db → String
  pub novnc : Option NovncAllocator
  pub scan : List ℕ → Option ℕ
  pub format : String → ℕ → String

unfoldable pub room_listed : Platform → Result (List Account) × Db → Bool × Db
room_listed p (err e, db) = (false, db)
room_listed p (ok hosted, db) = (not (any (same_platform p) hosted), db)

unfoldable pub room_counted : Config → Worker → Platform → Result ℕ × Db → Bool × Db
room_counted cfg w p (err e, db) = (false, db)
room_counted cfg w p (ok n, db) =
    if leb cfg.max_per_container n then (false, db) else room_listed p (list_by_worker w.id db)

-- `hasFreeSlot`: a failed count or listing reads as no room.
unfoldable pub has_free_slot : Config → Worker → Platform → Db → Bool × Db
unfolding room_counted
has_free_slot cfg w p db = room_counted cfg w p (count_by_worker w.id db)

-- What the loop over the candidates does next: a conflict goes on to the rest.
unfoldable pub after_assign :
    Worker
    → M (Option (Account × Worker))
    → Result Account × Db
    → Result (Option (Account × Worker)) × Db
after_assign w rest (ok a, db) = (ok (some (a, w)), db)
after_assign w rest (err conflict, db) = rest db
after_assign w rest (err e, db) = (err e, db)

unfoldable pub after_check :
    Account
    → Worker
    → M (Option (Account × Worker))
    → Bool × Db
    → Result (Option (Account × Worker)) × Db
unfolding after_assign
after_check a w rest (false, db) = rest db
after_check a w rest (true, db) = after_assign w rest (assign a.id w.id db)

unfoldable pub try_each : Config → Account → Platform → List Worker → M (Option (Account × Worker))
unfolding after_check has_free_slot
try_each cfg a p [] db = (ok none, db)
try_each cfg a p (w ∷ ws) db = after_check a w (try_each cfg a p ws) (has_free_slot cfg w p db)

unfoldable pub new_worker : WorkerSource → Option String → String → ℕ → Worker
new_worker source novnc name now = record {
  id = 0;
  name = name;
  container_id = none;
  novnc_service = novnc;
  desired_state = DesiredState.running;
  source = source;
  region = "ID";
  location = none;
  status = WorkerStatus.pending;
  generation = 1;
  observed_gen = none;
  browser_status = "";
  current_job_id = none;
  last_heartbeat = none;
  queue_depth = 0;
  restart_count = 0;
  created_at = now;
}

-- The checks on the account: its status, then that no container has it.
unfoldable pub if_placeable : {A : Type 0} → Account → M A → M A
if_placeable a run = elim (is_packable a) [
  | false ↦ throw validation
  | true ↦ elim a.worker_id [ some w ↦ throw conflict | none ↦ run ]
]

unfoldable pub resolved : Worker → Bool × Db → Result Worker × Db
resolved w (true, db) = (ok w, db)
resolved w (false, db) = (err conflict, db)

module _ (ports : Ports) where
  open ports use {new_id, new_name, novnc, scan, format}

  unfoldable pub after_create : M Worker → Result Worker × Db → Result Worker × Db
  after_create again (ok w, db) = (ok w, db)
  after_create again (err conflict, db) = again db
  after_create again (err e, db) = (err e, db)

  -- The three tries of `createWorker`, each with a fresh name; the last error is the answer.
  unfoldable pub create_tries : WorkerSource → Option String → ℕ → M Worker
  unfolding after_create new_worker
  create_tries source novnc zero db = (err conflict, db)
  create_tries source novnc (suc n) db =
      after_create (create_tries source novnc n)
        (create new_id (new_worker source novnc (new_name n db) db.now) db)

  unfoldable pub create_worker : WorkerSource → M Worker
  unfolding create_tries
  create_worker source = elim novnc [
    | none ↦ create_tries source none 3
    | some a ↦ allocate scan format a none >>= λ url. create_tries source url 3
  ]

  unfoldable pub assign_to : Account → Worker → M (Account × Worker)
  assign_to a w = assign a.id w.id >>= λ updated. pure (updated, w)

  module _ (cfg : Config) where
    unfoldable pub fall_back : Account → M (Account × Worker)
    unfolding create_worker assign_to
    fall_back a = elim cfg.auto_create [
      | false ↦ throw unavailable
      | true ↦ create_worker WorkerSource.auto >>= assign_to a
    ]

    unfoldable pub after_candidates : Account → Option (Account × Worker) → M (Account × Worker)
    unfolding fall_back
    after_candidates a (some placed) = pure placed
    after_candidates a none = fall_back a

    unfoldable pub choose : Account → Platform → M (Account × Worker)
    unfolding after_candidates
    choose a p =
        list wants_to_run 200 >>= λ candidates. try_each cfg a p candidates >>= after_candidates a

    unfoldable pub resolve_container : ℕ → Platform → M Worker
    resolve_container i p = Workers.get_by_id i >>= λ w db. resolved w (has_free_slot cfg w p db)

    unfoldable pub pack_into_worker : ℕ → Platform → Account → M (Account × Worker)
    unfolding resolve_container assign_to
    pack_into_worker i p a = resolve_container i p >>= assign_to a

    -- `Pack`, and below `PackInto`: the checks on the account are the same.
    unfoldable pub pack : ℕ → Platform → M (Account × Worker)
    unfolding choose
    pack i p = get_by_id i >>= λ a. if_placeable a (choose a p)

    unfoldable pub pack_into : ℕ → Platform → ℕ → M (Account × Worker)
    unfolding pack_into_worker
    pack_into i p worker = get_by_id i >>= λ a. if_placeable a (pack_into_worker worker p a)

unfoldable pub reap_counted : ℕ → ℕ → M (Unit {0})
reap_counted w zero = delete w
reap_counted w (suc n) = pure tt

unfoldable pub reap_found : ℕ → Result Worker × Db → Result (Unit {0}) × Db
unfolding reap_counted
reap_found i (err not_found, db) = (ok tt, db)
reap_found i (err e, db) = (err e, db)
reap_found i (ok w, db) = elim (is_auto w.source) [
  | false ↦ (ok tt, db)
  | true ↦ bind_result (count_by_worker i db) (reap_counted i)
]

-- `ReapEmpty`.
unfoldable pub reap_empty : ℕ → M (Unit {0})
unfolding reap_found
reap_empty i db = reap_found i (Workers.get_by_id i db)

unfoldable pub release_from : Option ℕ → M (Unit {0})
unfolding reap_empty
release_from none db = (ok tt, db)
release_from (some w) db = (ok tt, (reap_empty w db).1)

-- `Release`: an error of the reaping is only logged.
unfoldable pub release : ℕ → M (Unit {0})
unfolding release_from
release i = unassign i >>= λ a. release_from a.worker_id
