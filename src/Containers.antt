-- ===== src/Containers.antt =====
-- apps/api/internal/service/container.go: the containers as the operator handles them. The stream and
-- the control channel are wired, and the packer and the port allocator may be absent. ToUpper,
-- EqualFold and the generated name are functions; a text is measured in code points, which are bytes
-- where it is ASCII. Left out are the coordinates, and the driver's removal of the container on the
-- platform, which writes no row and whose error is only logged.
pub mod Removal
use jg_smm.Prelude.{
  ℕ, ◌==◌, ltb, ◌&&◌, Bool, true, false, not, if◌then◌else◌, List, [], ◌∷◌, Option, none, some,
  String, length,
}
use jg_smm.Prelude.Text.{codes}
use jg_smm.Domain.Status.{
  Platform, AuthStatus, AccountStatus, WorkerSource, DesiredState, WorkerStatus, is_running,
}
use jg_smm.Domain.Location.{find_city, is_city}
use jg_smm.Domain.Entities.{Account, Worker}
use jg_smm.Store.{
  Db, M, Result, ok, err, conflict, validation, driver, unavailable, provision_updated,
  open_browser, pure, throw, bind_result, handle_result, ◌>>=◌, ◌>>◌, publish, publish_control,
}
use jg_smm.Store.Accounts
use jg_smm.Store.Accounts.{list_by_worker, unassign}
use jg_smm.Store.Workers
use jg_smm.Store.Workers.{same_text, create, list, everyone}
use jg_smm.Packer.{release, new_worker}
use jg_smm.Novnc.{NovncAllocator, allocate}

-- What the service is built with besides the stores.
pub record Ports : Type 0 where
  pub new_id : Db → ℕ
  pub new_name : Db → String
  pub equal_fold : String → String → Bool
  pub to_upper : List ℕ → List ℕ
  pub novnc : Option NovncAllocator
  pub scan : List ℕ → Option ℕ
  pub format : String → ℕ → String
  pub packs : Bool

abbrev pub is_empty : String → Bool
is_empty String.[] = true
is_empty (String.◌∷◌ c s) = false

module _ (ports : Ports) where
  open ports use {new_id, new_name, equal_fold, to_upper, novnc, scan, format, packs}

  -- Two code points that ToUpper leaves: digits pass as well.
  abbrev pub is_region : String → Bool
  is_region region =
      if length (codes region) == 2
      then same_text (codes region) (to_upper (codes region))
      else false

  abbrev pub name_or : String → Db → String
  name_or name db = if is_empty name then new_name db else name

  -- The row of a container that an operator makes.
  abbrev pub manual_worker : Option String → String → String → String → ℕ → Worker
  unfolding new_worker
  manual_worker url name region location now =
      record (new_worker WorkerSource.manual url name now) {
        region = region;
        location = some location;
      }

  unfoldable pub announce : Worker → M Worker
  unfolding publish
  announce w = publish (provision_updated w.id) >> pure w

  unfoldable pub insert_container : String → String → String → Option String → M Worker
  unfolding announce
  insert_container name region location url db =
      (create new_id (manual_worker url name region location db.now) >>= announce) db

  unfoldable pub allocate_view : Option NovncAllocator → Option ℕ → M (Option String)
  allocate_view none port = pure none
  allocate_view (some a) port = allocate scan format a port

  unfoldable pub create_named : Bool → String → String → String → Option ℕ → M Worker
  unfolding allocate_view insert_container
  create_named true name region location port = throw validation
  create_named false name region location port =
      allocate_view novnc port >>= insert_container name region location

  abbrev pub is_too_long : String → Bool
  is_too_long name = ltb 64 (length (codes name))

  -- The checks on the region and the location: not empty, well formed, known.
  abbrev pub is_placed : String → String → Bool
  is_placed region location =
      if is_empty region
      then false
      else if not (is_region region)
      then false
      else if is_empty location
      then false
      else is_city (find_city equal_fold location)

  unfoldable pub create_placed : Bool → String → String → String → Option ℕ → M Worker
  unfolding create_named
  create_placed false name region location port db = (err validation, db)
  create_placed true name region location port db =
      create_named (is_too_long (name_or name db)) (name_or name db) region location port db

  -- `Create`.
  unfoldable pub create_container : String → String → String → Option ℕ → M Worker
  unfolding create_placed
  create_container name region location port =
      create_placed (is_placed region location) name region location port

  -- One account is taken out; an error is logged.
  unfoldable pub detach : Bool → ℕ → Db → Db
  detach true i db = (release i db).1
  detach false i db = (unassign i db).1

  unfoldable pub detach_each : List Account → Db → Db
  unfolding detach
  detach_each [] db = db
  detach_each (a ∷ rest) db = detach_each rest (detach packs a.id db)

  unfoldable pub after_stop : ℕ → Result Worker × Db → Result (Unit {0}) × Db
  after_stop i (err e, db) = (err e, db)
  after_stop i (ok w, db) = (Workers.delete i >> publish (provision_updated i)) db

  unfoldable pub drop_row : Bool → Worker → ℕ → M (Unit {0})
  unfolding after_stop publish
  drop_row true w i db =
      after_stop i (Workers.update (record w { desired_state = DesiredState.stopped }) db)
  drop_row false w i db = (Workers.delete i >> publish (provision_updated i)) db

  unfoldable pub delete_listed : Worker → ℕ → List Account → M (Unit {0})
  unfolding drop_row detach_each
  delete_listed w i accounts db =
      drop_row (is_running w.desired_state) w i (detach_each accounts db)

  -- `Delete`.
  unfoldable pub delete_container : ℕ → M (Unit {0})
  unfolding delete_listed
  delete_container i = Workers.get_by_id i >>= λ w. list_by_worker i >>= delete_listed w i

-- `OpenBrowser`, where the control channel is wired.
abbrev pub has_view : Option String → Bool
has_view none = false
has_view (some url) = not (is_empty url)

unfoldable pub open_if : Bool → Worker → String → M (Unit {0})
open_if false w url = throw conflict
open_if true w url = publish_control w.id (open_browser url)

unfoldable pub open_on : Bool → ℕ → String → M (Unit {0})
unfolding open_if
open_on false i url = throw unavailable
open_on true i url = Workers.get_by_id i >>= λ w. open_if (has_view w.novnc_service) w url
