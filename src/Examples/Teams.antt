-- ===== src/Examples/Teams.antt =====
-- The team and the login limiter on the sample rows.
use jg_smm.Prelude.{◌≤◌, ◌≡◌, refl, true, String, [], ◌∷◌, some, arith}
use jg_smm.Domain.Role.{analyst}
use jg_smm.Users.{update_user, remove}
use jg_smm.Users.Counts.{HasOwner, UniqueUsers}
use jg_smm.Users.Owners.{update_user-HasOwner, remove-HasOwner}
use jg_smm.Users.Creation.{Texts, UserInput, create_user}
use jg_smm.Users.Emails.{Entered, create_user-Entered}
use jg_smm.Users.Sessions.{update_user-sessions}
use jg_smm.Login.{Limiter}
use jg_smm.Login.Window.{granted, granted_lem}
use jg_smm.Store.{ok, is_ok}
use jg_smm.Store.Users.{create}
use jg_smm.Examples.{sample_db}

abbrev keep_text : String → String
keep_text s = s

sample_users-UniqueUsers : UniqueUsers sample_db.users
sample_users-UniqueUsers i = ground arith

update_user-HasOwner_example :
    HasOwner (update_user keep_text 1 "" (some analyst) sample_db).1.users
update_user-HasOwner_example =
    update_user-HasOwner keep_text 1 "" (some analyst) sample_db sample_users-UniqueUsers
      (omega arith)

remove-HasOwner_example : HasOwner (remove 1 2 sample_db).1.users
remove-HasOwner_example = remove-HasOwner 1 2 sample_db sample_users-UniqueUsers (omega arith)

update_user-sessions_example :
    (update_user keep_text 1 "" (some analyst) sample_db).1.sessions ≡ sample_db.sessions
update_user-sessions_example = update_user-sessions keep_text 1 "" (some analyst) sample_db

abbrev sample_texts : Texts
sample_texts = record {
  trim = keep_text;
  to_lower = keep_text;
  lower = keep_text;
  hash_password = λ p. ok "hash";
  layout = λ t. "1970-01-01T00:00:00Z";
  new_id = λ db. 2;
}

abbrev sample_input : UserInput
sample_input = record {
  email = "ana@example.org";
  name = "Ana";
  password = "long enough";
  role = analyst;
}

create_user-Entered_example :
    Entered sample_texts sample_input [] sample_db.users
      (create_user sample_texts sample_input sample_db)
create_user-Entered_example = create_user-Entered sample_texts sample_input sample_db

create_user_runs : is_ok (create_user sample_texts sample_input sample_db).0 ≡ true
unfolding create_user create
create_user_runs = refl

abbrev no_hits : Limiter
no_hits ip = []

granted_lem_example : granted 4 (100 ∷ 105 ∷ 103 ∷ []) no_hits ≤ 10
granted_lem_example =
    granted_lem 4 100 (100 ∷ 105 ∷ 103 ∷ []) no_hits (omega arith)
      ((omega arith, omega arith), ((omega arith, omega arith), ((omega arith, omega arith), tt)))
