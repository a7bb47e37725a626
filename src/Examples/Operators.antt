-- ===== src/Examples/Operators.antt =====
-- The accounts and the containers as operators handle them, on the sample rows.
use jg_smm.Prelude.{ℕ, String, ◌≡◌, refl, [], ◌∷◌, List, Option, none, some, true, false}
use jg_smm.Prelude.Text.{codes}
use jg_smm.Domain.Status.{instagram}
use jg_smm.Store.{Db, Result, ok, err, not_found}
use jg_smm.Packer
use jg_smm.Packer.{Config}
use jg_smm.Accounts.{AccountInput, create_account, validate}
use jg_smm.Accounts.Creation.{wired, left_row, create_account_bad_pick}
use jg_smm.Accounts.Lifecycle.Effects.{status_of}
use jg_smm.Accounts.Lifecycle.Machine.{
  pause_it, resume_it, perform_all, run_machine, perform_all-machine,
}
use jg_smm.Accounts.Auth.{submit_input}
use jg_smm.Accounts.Auth.Inputs.{Submitted, submit_input-Submitted}
use jg_smm.Accounts.Import.{ImportLimiter, import_accounts}
use jg_smm.Accounts.Import.Accounting.{Verdict, import_accounts-Verdict}
use jg_smm.Accounts.Exports.{
  Exports, begin_export, end_export, deliver_all, first_for, awaited, by_channel, by_timeout,
  end_export_lem,
}
use jg_smm.Containers
use jg_smm.Containers.{delete_container}
use jg_smm.Containers.Removal.{Removed, delete_container-Removed}
use jg_smm.Store.Workers.Claiming.{WorkerClaim, claim}
use jg_smm.Store.Workers.Owners.{Claimed, claim-Claimed}
use jg_smm.Store.{is_ok}
use jg_smm.Examples.{sample_db}

perform_all-machine_example :
    status_of 7 (perform_all true (pause_it 7 ∷ resume_it 7 ∷ []) sample_db).1
    ≡ run_machine 7
        (perform_all true (pause_it 7 ∷ resume_it 7 ∷ []) sample_db).0
        (status_of 7 sample_db)
perform_all-machine_example = perform_all-machine true (pause_it 7 ∷ resume_it 7 ∷ []) 7 sample_db

submit_input-Submitted_example :
    Submitted 7 "123456" sample_db (submit_input true 7 "123456" sample_db)
submit_input-Submitted_example = submit_input-Submitted true 7 "123456" sample_db

abbrev plain_seal : String → Result (List ℕ)
plain_seal s = ok (codes s)

abbrev new_number : Db → ℕ
new_number db = 9

abbrev bare_ports : Packer.Ports
bare_ports = record {
  new_id = new_number;
  new_name = λ n db. "smm-c";
  novnc = none;
  scan = λ s. none;
  format = λ host p. host;
}

abbrev small_config : Config
small_config = record { max_per_container = 3; auto_create = true }

-- A new account that picks a container which does not exist.
abbrev lost_pick : AccountInput
lost_pick = record {
  platform = some instagram;
  username = "new";
  password = "p";
  proxy_group_id = none;
  worker_id = some 44;
  tags = [];
}

lost_pick-valid : validate lost_pick ≡ ok instagram
unfolding validate
lost_pick-valid = refl

create_account_bad_pick_example :
    create_account (wired new_number plain_seal bare_ports small_config) lost_pick sample_db ≡ (
      err not_found,
      record sample_db {
        accounts =
            left_row
              (wired new_number plain_seal bare_ports small_config)
              lost_pick
              instagram
              sample_db
            ∷ sample_db.accounts;
      },
    )
create_account_bad_pick_example =
    create_account_bad_pick new_number plain_seal (codes "p") bare_ports small_config lost_pick
      instagram 44 sample_db refl lost_pick-valid refl refl refl refl refl refl

abbrev no_imports : ImportLimiter
no_imports caller = []

import_accounts-Verdict_example :
    Verdict
      (wired new_number plain_seal bare_ports small_config)
      1
      (lost_pick ∷ [])
      no_imports
      sample_db
      (import_accounts
        (wired new_number plain_seal bare_ports small_config)
        1
        (lost_pick ∷ [])
        no_imports
        sample_db)
import_accounts-Verdict_example =
    import_accounts-Verdict (wired new_number plain_seal bare_ports small_config) 1 (lost_pick ∷ [])
      no_imports sample_db

abbrev no_exports : Exports
no_exports r = none

abbrev two_sessions : List (ℕ × List ℕ)
two_sessions = (12, codes "other") ∷ (11, codes "mine") ∷ (11, codes "late") ∷ []

begun : is_ok (begin_export true 11 7 no_exports sample_db).0 ≡ true
unfolding begin_export jg_smm.Store.Accounts.get_by_id jg_smm.Store.publish_control
begun = refl

end_export_lem_example :
    ((end_export by_channel 11
        (deliver_all two_sessions (begin_export true 11 7 no_exports sample_db).2)).0
      ≡ awaited (first_for 11 two_sessions))
    × (deliver_all two_sessions
          (end_export by_timeout 11
            (deliver_all two_sessions (begin_export true 11 7 no_exports sample_db).2)).1
          11
        ≡ none)
end_export_lem_example =
    end_export_lem true 11 7 no_exports sample_db two_sessions two_sessions by_timeout begun

abbrev container_ports : Containers.Ports
container_ports = record {
  new_id = new_number;
  new_name = λ db. "smm-d";
  equal_fold = λ s t. true;
  to_upper = λ s. s;
  novnc = none;
  scan = λ s. none;
  format = λ host p. host;
  packs = true;
}

delete_container-Removed_example :
    Removed 3 sample_db.workers (delete_container container_ports 3 sample_db)
delete_container-Removed_example = delete_container-Removed container_ports 3 sample_db

abbrev boot_claim : WorkerClaim
boot_claim = record { container_id = "worker-1"; novnc_url = none }

abbrev no_row : String → Option ℕ
no_row s = none

claim-Claimed_example :
    Claimed boot_claim sample_db.workers (claim no_row boot_claim sample_db)
    × (is_ok (claim no_row boot_claim sample_db).0 ≡ false
        → (claim no_row boot_claim sample_db).1.workers ≡ sample_db.workers)
claim-Claimed_example = claim-Claimed no_row boot_claim sample_db
